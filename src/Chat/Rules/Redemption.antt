-- ===== src/Chat/Rules/Redemption.antt =====
-- crates/profile-chat/src/lib.rs: an invitation lets one user in.
use chatcommons.Prelude.{◌≡◌, ◌≢◌, true, ok, arith}
use chatcommons.Prelude.Bytes.{Bytes}
use chatcommons.Prelude.Sets
use chatcommons.Prelude.Sets.{Set, contains-insert}
use chatcommons.Crypto.{Primitives, UserId}
use chatcommons.Protocol.{SignedEvent, EventId}
use chatcommons.Chat.{ChatPayload, member_accept, home_server_set, State}
use chatcommons.Chat.Rules.{validate_context, validate_payload, apply}

module _ (p : Primitives) where
  -- The states that admitted events lead to.
  pub data Later (s : State) : State → Type 0 where
    now : Later s s
    after :
        {t : State} (event : SignedEvent) (payload : ChatPayload) (author : UserId) (accepted : Set)
        → Later s t
        → validate_context p t event payload author accepted ≡ ok tt
        → Later s (apply p t event payload author)

  -- A used invitation stays used.
  apply_keeps_used :
      (s : State) (event : SignedEvent) (payload : ChatPayload) (author : UserId) (i : EventId)
      → Sets.contains i s.accepted_invitations ≡ true
      → Sets.contains i (apply p s event payload author).accepted_invitations ≡ true
  unfolding apply
  apply_keeps_used s event (member_accept invitation signature) author i h =
      ground (arith, h, contains-insert i invitation s.accepted_invitations)
  apply_keeps_used s event (home_server_set key endpoints) author i h = ground (arith, h)
  apply_keeps_used s event _ author i h = h

  Later-keeps_used :
      (s t : State) (i : EventId)
      → Later s t
      → Sets.contains i s.accepted_invitations ≡ true
      → Sets.contains i t.accepted_invitations ≡ true
  Later-keeps_used s t i now h = h
  Later-keeps_used s _ i (after {t} event payload author accepted before v) h =
      apply_keeps_used t event payload author i (Later-keeps_used s t i before h)

  used_refused :
      (s : State) (event : SignedEvent) (author : UserId) (accepted : Set) (invitation : EventId)
      (signature : Bytes)
      → Sets.contains invitation s.accepted_invitations ≡ true
      → validate_context p s event (member_accept invitation signature) author accepted ≢ ok tt
  unfolding validate_context validate_payload
  used_refused s event author accepted invitation signature used h = ground (arith, used, h)

  -- Once an acceptance of an invitation is admitted, no acceptance of it is admitted again in any state
  -- that admitted events lead to, whoever its author and whatever its signature.
  pub redeemed_once :
      (s t : State) (event other : SignedEvent) (author another : UserId) (accepted known : Set)
      (invitation : EventId) (signature second : Bytes)
      → validate_context p s event (member_accept invitation signature) author accepted ≡ ok tt
      → Later (apply p s event (member_accept invitation signature) author) t
      → validate_context p t other (member_accept invitation second) another known ≢ ok tt
  unfolding apply
  redeemed_once s t event other author another accepted known invitation signature second h later =
      used_refused t other another known invitation second (
        Later-keeps_used (apply p s event (member_accept invitation signature) author) t invitation
          later (ground (arith, contains-insert invitation invitation s.accepted_invitations)))
