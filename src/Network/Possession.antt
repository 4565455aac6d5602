-- ===== src/Network/Possession.antt =====
-- crates/sync/src/network.rs: the possession proof by which a peer gets the ancestry of an invitation.
use chatcommons.Prelude.{
  ◌≡◌, ◌↔◌, inl, inr, refl, true, false, Option, none, some, List, arith, sym, subst, ap, ◌∙◌, ok,
  Result-cases, Bool-cases,
}
use chatcommons.Prelude.Bytes.{Bytes}
use chatcommons.Prelude.Maps
use chatcommons.Prelude.Maps.{lookup, lookup-remove}
use chatcommons.Prelude.Options.{some_inj}
use chatcommons.Crypto.{Primitives, verify}
use chatcommons.Protocol.{EventId, SignedEvent}
use chatcommons.Device.Certificates.{Signs}
use chatcommons.Network.{
  Libp2p, Synchronizer, NetworkNode, PendingChallenge, BootstrapGrant, PeerId, bootstrap_ancestry,
}
use chatcommons.Network.Requests.{prove_with, prove_bootstrap, refutes}

module _ (p : Primitives) where
  verify_iff :
      (key message signature : Bytes)
      → (verify p key message signature ≡ ok tt) ↔ Signs p key message signature
  unfolding verify
  verify_iff key message signature = (
    λ h. record {
      key_length = ground arith;
      signature_length = ground arith;
      key_accepted = ground arith;
      signature_accepted = ground arith;
    },
    λ s. ground (arith, s.key_length, s.signature_length, s.key_accepted, s.signature_accepted),
  )

none-some : {A : Type 0} {a : A} → none ≡ some a → ⊥
none-some h = cc

true-false : true ≡ false → ⊥
true-false h = cc

module _ (n : Libp2p) (z : Synchronizer) (p : Primitives) where
  -- A possession proof: for the challenge of the peer, which was for this invitation, under the key
  -- of the grant.
  pub record Proves (s : NetworkNode n z) (peer : PeerId) (invitation : EventId) (signature : Bytes)
      (ancestry : List SignedEvent) : Type 0 where
    pub pending : PendingChallenge
    pub grant : BootstrapGrant
    pub challenged : lookup peer s.pending_challenges ≡ some pending
    pub granted : lookup invitation s.bootstrap_grants ≡ some grant
    pub for_invitation : pending.invitation ≡ invitation
    pub signed : Signs p grant.capability_public_key pending.proof_bytes signature
    pub served : grant.ancestry ≡ ancestry

  refutes_iff :
      (c : PendingChallenge) (g : BootstrapGrant) (invitation : EventId) (signature : Bytes)
      → (refutes n z p c g invitation signature ≡ false)
        ↔ ((c.invitation ≡ invitation) × Signs p g.capability_public_key c.proof_bytes signature)
  refutes_iff c g invitation signature =
      let key = g.capability_public_key in
      (
        λ h. (
          ground arith,
          elim (Result-cases (verify p key c.proof_bytes signature)) [
            | inl (e, v) ↦ absurd (ground (arith, v))
            | inr (_, v) ↦ (verify_iff p key c.proof_bytes signature).0 v
          ],
        ),
        λ (i, s).
            ground (arith, i, s.signature_length, (verify_iff p key c.proof_bytes signature).1 s),
      )

  -- `prove_bootstrap` serves an ancestry exactly if the peer has a pending challenge, which was for this
  -- invitation, the invitation still has a grant, whose ancestry is served, and the grant's key signs
  -- the bytes of the challenge. Whatever it answers, the challenge is used up, and the grants, the
  -- authenticated peers and the allowed users are as they were.
  pub prove_bootstrap_iff :
      (s : NetworkNode n z) (peer : PeerId) (invitation : EventId) (signature : Bytes)
      (ancestry : List SignedEvent)
      → (((prove_bootstrap n z p s peer invitation signature).0
            ≡ bootstrap_ancestry invitation ancestry)
          ↔ Proves s peer invitation signature ancestry)
        × (lookup peer (prove_bootstrap n z p s peer invitation signature).1.pending_challenges
            ≡ none)
        × ((prove_bootstrap n z p s peer invitation signature).1.bootstrap_grants
            ≡ s.bootstrap_grants)
        × ((prove_bootstrap n z p s peer invitation signature).1.authenticated ≡ s.authenticated)
        × ((prove_bootstrap n z p s peer invitation signature).1.allowed_users ≡ s.allowed_users)
  unfolding prove_bootstrap
  prove_bootstrap_iff s peer invitation signature ancestry =
      through (lookup peer s.pending_challenges) (lookup invitation s.bootstrap_grants) refl refl
    where
      used : lookup peer (Maps.remove peer s.pending_challenges) ≡ none
      used = ground (arith, lookup-remove peer peer s.pending_challenges)

      same_pending :
          {c : PendingChallenge} (x : Proves s peer invitation signature ancestry)
          → lookup peer s.pending_challenges ≡ some c
          → c ≡ x.pending
      same_pending {c} x a = some_inj c x.pending (sym a ∙ x.challenged)

      same_grant :
          {g : BootstrapGrant} (x : Proves s peer invitation signature ancestry)
          → lookup invitation s.bootstrap_grants ≡ some g
          → g ≡ x.grant
      same_grant {g} x b = some_inj g x.grant (sym b ∙ x.granted)

      through :
          (pending : Option PendingChallenge) (grant : Option BootstrapGrant)
          → lookup peer s.pending_challenges ≡ pending
          → lookup invitation s.bootstrap_grants ≡ grant
          → (((prove_with n z p
                  (record s { pending_challenges = Maps.remove peer s.pending_challenges })
                  peer
                  invitation
                  signature
                  pending
                  grant).0
                ≡ bootstrap_ancestry invitation ancestry)
              ↔ Proves s peer invitation signature ancestry)
            × (lookup peer
                  (prove_with n z p
                    (record s { pending_challenges = Maps.remove peer s.pending_challenges })
                    peer
                    invitation
                    signature
                    pending
                    grant).1.pending_challenges
                ≡ none)
            × ((prove_with n z p
                  (record s { pending_challenges = Maps.remove peer s.pending_challenges })
                  peer
                  invitation
                  signature
                  pending
                  grant).1.bootstrap_grants
                ≡ s.bootstrap_grants)
            × ((prove_with n z p
                  (record s { pending_challenges = Maps.remove peer s.pending_challenges })
                  peer
                  invitation
                  signature
                  pending
                  grant).1.authenticated
                ≡ s.authenticated)
            × ((prove_with n z p
                  (record s { pending_challenges = Maps.remove peer s.pending_challenges })
                  peer
                  invitation
                  signature
                  pending
                  grant).1.allowed_users
                ≡ s.allowed_users)
      through none grant a b = (
        (λ h. absurd (cc), λ x. absurd (none-some (sym a ∙ x.challenged))),
        used,
        refl,
        refl,
        refl,
      )
      through (some c) none a b =
          ((λ h. absurd (cc), λ x. absurd (none-some (sym b ∙ x.granted))), used, refl, refl, refl)
      through (some c) (some g) a b = elim (Bool-cases (refutes n z p c g invitation signature)) [
        | inl t ↦
            rw (prove_with, t)
              (
                (
                  λ h. absurd (cc),
                  λ x. absurd (
                      true-false (
                        sym t
                        ∙ (refutes_iff c g invitation signature).1 (
                          subst (λ y. y.invitation ≡ invitation) (sym (same_pending x a))
                              x.for_invitation,
                          subst (λ y. Signs p y.capability_public_key c.proof_bytes signature)
                              (sym (same_grant x b))
                              (subst
                                (λ y. Signs p x.grant.capability_public_key y.proof_bytes signature)
                                (sym (same_pending x a)) x.signed),
                        ))),
                ),
                used,
                refl,
                refl,
                refl,
              )
        | inr f ↦
            let (i, signs) = (refutes_iff c g invitation signature).0 f in
            rw (prove_with, f)
              (
                (
                  λ h. record {
                    pending = c;
                    grant = g;
                    challenged = a;
                    granted = b;
                    for_invitation = i;
                    signed = signs;
                    served = cc;
                  },
                  λ x. let served = ap (λ y. y.ancestry) (same_grant x b) ∙ x.served in cc,
                ),
                used,
                refl,
                refl,
                refl,
              )
      ]
