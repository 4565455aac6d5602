-- ===== src/Chat/Resolver/Authority.antt =====
-- Who holds which office in a snapshot that `resolve` of crates/profile-chat/src/lib.rs returns.
use chatcommons.Prelude.{◌≡◌, sym, subst, true, none, some, List, [], ok}
use chatcommons.Prelude.Sets
use chatcommons.Crypto.{Primitives, UserId}
use chatcommons.Protocol.{SignedEvent, EventId, Codec}
use chatcommons.Chat.{ChatPayload, ChatSnapshot, ChatResolution}
use chatcommons.Chat.Rules.Authority.{IsLawful, initial-IsLawful, apply-IsLawful}
use chatcommons.Chat.Book.{Book}
use chatcommons.Chat.Resolver.{Progress, finish, resolve}
use chatcommons.Chat.Resolver.Step.{Outcome, refused, admitted}
use chatcommons.Chat.Resolver.Picks.{IsReady}
use chatcommons.Chat.Resolver.Rounds.{resolved-keeps, resolve_inversion}

-- The offices of a community.
pub record HasOffices (s : ChatSnapshot) : Type 0 where
  pub owner_is_administrator :
      (u : UserId) → s.owner ≡ some u → Sets.contains u s.administrators ≡ true
  pub administrators_are_members :
      (u : UserId) → Sets.contains u s.administrators ≡ true → Sets.contains u s.members ≡ true
  pub unfounded : s.community ≡ none → (s.owner ≡ none) × (s.members ≡ []) × (s.administrators ≡ [])

module _ (p : Primitives) (b : Book) where
  step-IsLawful :
      (g after : Progress) (id : EventId)
      → IsReady b g.pending id
      → Sets.contains id g.pending ≡ true
      → Outcome p b g id after
      → IsLawful g.state
      → IsLawful after.state
  step-IsLawful g after id rd c (refused event reason e same) l =
      subst (λ g. IsLawful g.state) (sym same) l
  step-IsLawful g after id rd c (admitted event payload author e f w m r v same) l =
      subst (λ g. IsLawful g.state) (sym same)
        (apply-IsLawful p g.state event author g.accepted payload l v)

module _ (chat_codec : Codec ChatPayload) (p : Primitives) where
  -- In every snapshot the owner is an administrator, administrators are members, and without a
  -- community there is no owner, no member and no administrator.
  pub resolve-HasOffices :
      (events : List SignedEvent) (r : ChatResolution)
      → resolve p chat_codec events ≡ some (ok r)
      → HasOffices r.snapshot
  unfolding finish
  resolve-HasOffices events r h =
      let (b, g, i, done, same) = resolve_inversion chat_codec p events r h in
      let l =
        resolved-keeps p b (λ g. IsLawful g.state) (step-IsLawful p b) _ g done initial-IsLawful in
      subst (λ r. HasOffices r.snapshot) (sym same)
        (record {
          owner_is_administrator = l.owner_is_administrator;
          administrators_are_members = l.administrators_are_members;
          unfounded = λ e. (l.unowned e, l.unpeopled e, l.unruled e);
        })
