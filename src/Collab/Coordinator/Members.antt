-- ===== src/Collab/Coordinator/Members.antt =====
-- Whom `_authenticate` of collab_runtime/coordinator.py takes a credential for.
use imece_ide.Base.{
  ◌≡◌, refl, sym, ap, subst, ◌∙◌, inl, inr, String, true, false, ◌&&◌, leb, str_eq, eq_iff, eq_refl,
  some, none, Bool-cases, Option-cases, List, [], ◌∷◌, length, any, ok, bind_inv, guard_inv,
  refuse_inv, require, require_inv, collab_validation, access_denied, if◌then◌else◌, arith,
}
use mathlib.Core.List.{Memᴰ}
use mathlib.Core.List.Memᴰ
use imece_ide.Collab.Scopes.{is_safe_id, is_sha_hex}
use imece_ide.Collab.Models.{parse_state}
use imece_ide.Collab.Hub.{Git, fetch_state}
use imece_ide.Collab.Coordinator.{
  Coordinator, is_key, principal_of, credential_hash, hash_members, authenticate, connect,
}

found_later :
    (d k stored w : String) (r : List (String × String))
    → principal_of d r ≡ some w
    → principal_of d ((k, stored) ∷ r) ≡ some w
unfolding principal_of
found_later d k stored w r h = ground (arith, h)

found_here :
    (d k stored : String) (r : List (String × String))
    → principal_of d r ≡ none
    → principal_of d ((k, stored) ∷ r) ≡ (if str_eq d stored then some k else none)
unfolding principal_of
found_here d k stored r h = ground (arith, h)

found_nowhere : (d w : String) → principal_of d [] ≡ some w → ⊥
unfolding principal_of
found_nowhere d w h = ground arith

module _ (sha256 : String → String) where
  hash_nil :
      (seen : List String) (hs : List (String × String))
      → hash_members sha256 seen [] ≡ ok hs
      → [] ≡ hs
  unfolding hash_members
  hash_nil seen hs h = ground arith

  -- What one credential adds to the hashes.
  record Hashed (seen : List String) (member credential : String)
      (rest hashes : List (String × String)) : Type 0 where
    digest : String
    hashed : credential_hash sha256 credential ≡ some digest
    unseen : any (λ d. str_eq d digest) seen ≡ false
    others : List (String × String)
    hashed_others : hash_members sha256 (digest ∷ seen) rest ≡ ok others
    all_hashes : hashes ≡ (member, digest) ∷ others

  hash_inv :
      (seen : List String) (member credential : String) (rest hashes : List (String × String))
      → hash_members sha256 seen ((member, credential) ∷ rest) ≡ ok hashes
      → Hashed seen member credential rest hashes
  unfolding hash_members
  hash_inv seen member credential rest hashes h =
      let (_, h) = guard_inv (is_safe_id member) _ h in
      let (digest, hashed, h) =
        bind_inv (require (credential_hash sha256 credential) collab_validation) _ h in
      let (unseen, h) = refuse_inv (any (λ d. str_eq d digest) seen) _ h in
      let (others, hashed_others, h) = bind_inv (hash_members sha256 (digest ∷ seen) rest) _ h in
      record {
        digest = digest;
        hashed = require_inv (credential_hash sha256 credential) _ hashed;
        unseen = unseen;
        others = others;
        hashed_others = hashed_others;
        all_hashes = ground arith;
      }

  unseen_lem :
      (d : String) (seen : List String) (ms hs : List (String × String))
      → hash_members sha256 seen ms ≡ ok hs
      → any (λ x. str_eq x d) seen ≡ true
      → principal_of d hs ≡ none
  unfolding hash_members principal_of
  unseen_lem d seen [] hs h k = subst (λ l. principal_of d l ≡ none) (hash_nil seen hs h) refl
  unseen_lem d seen ((member, credential) ∷ rest) hs h k =
      let a = hash_inv seen member credential rest hs h in
      let tail = unseen_lem d (a.digest ∷ seen) rest a.others a.hashed_others (ground (arith, k)) in
      elim (Bool-cases (str_eq d a.digest)) [
        | inl e ↦
            let unseen : any (λ x. str_eq x d) seen ≡ false =
              subst (λ x. any (λ y. str_eq y x) seen ≡ false) (sym ((eq_iff d a.digest).0 e))
                a.unseen in
            absurd (ground (arith, k, unseen))
        | inr e ↦
            ap (principal_of d) a.all_hashes
            ∙ found_here d member a.digest a.others tail
            ∙ ap (λ b. if b then some member else none) e
      ]

  principal_of_hashed :
      (member credential : String) (seen : List String) (ms hs : List (String × String))
      → hash_members sha256 seen ms ≡ ok hs
      → Memᴰ (member, credential) ms
      → (digest : String) × (credential_hash sha256 credential ≡ some digest)
        × (principal_of digest hs ≡ some member)
  principal_of_hashed member credential seen [] hs h i = absurd (Memᴰ.not-nil i)
  principal_of_hashed member credential seen ((k, x) ∷ rest) hs h i =
      let a = hash_inv seen k x rest hs h in
      elim (Memᴰ.cases_cons i) [
        | inl e ↦
            let again = eq_refl a.digest in
            let later =
              unseen_lem a.digest (a.digest ∷ seen) rest a.others a.hashed_others
                (ground (arith, again)) in
            (
              a.digest,
              ap (credential_hash sha256) (ap (λ y. y.1) e) ∙ a.hashed,
              ap (principal_of a.digest) a.all_hashes
                  ∙ found_here a.digest k a.digest a.others later
                  ∙ ap (λ b. if b then some k else none) again
                  ∙ ap (λ y. some y.0) (sym e),
            )
        | inr j ↦
            let (digest, hashed, found) =
              principal_of_hashed member credential (a.digest ∷ seen) rest a.others a.hashed_others
                j in
            (
              digest,
              hashed,
              ap (principal_of digest) a.all_hashes
                  ∙ found_later digest k a.digest member a.others found,
            )
      ]

  configured_principal :
      (who digest : String) (seen : List String) (ms hs : List (String × String))
      → hash_members sha256 seen ms ≡ ok hs
      → principal_of digest hs ≡ some who
      → (credential : String) × Memᴰ (who, credential) ms
        × (credential_hash sha256 credential ≡ some digest)
  configured_principal who digest seen [] hs h p =
      absurd (found_nowhere digest who (ap (principal_of digest) (hash_nil seen hs h) ∙ p))
  configured_principal who digest seen ((k, x) ∷ rest) hs h p =
      let a = hash_inv seen k x rest hs h in
      let p = ap (principal_of digest) (sym a.all_hashes) ∙ p in
      elim (Option-cases (principal_of digest a.others)) [
        | inl later ↦
            let now = sym (found_here digest k a.digest a.others later) ∙ p in
            elim (Bool-cases (str_eq digest a.digest)) [
              | inl e ↦
                  let same : k ≡ who = ground (arith, e, now) in
                  (
                    x,
                    Memᴰ.head (ap (λ w. (w, x)) (sym same)),
                    a.hashed ∙ ap some (sym ((eq_iff digest a.digest).0 e)),
                  )
              | inr e ↦ absurd (ground (arith, e, now))
            ]
        | inr (w, found) ↦
            let same : some w ≡ some who =
              sym (found_later digest k a.digest w a.others found) ∙ p in
            let (y, i, hashed) =
              configured_principal who digest (a.digest ∷ seen) rest a.others a.hashed_others
                (found ∙ same) in
            (y, Memᴰ.tail i, hashed)
      ]

  connect_inv :
      (git : Git) (session_id owner_id : String) (members : List (String × String)) (head : String)
      (c : Coordinator)
      → connect sha256 git session_id owner_id members head ≡ ok c
      → hash_members sha256 [] members ≡ ok c.credential_hashes
  unfolding connect
  connect_inv git session_id owner_id members head c h =
      let (_, h) = guard_inv (is_safe_id session_id) _ h in
      let (_, h) = guard_inv (is_safe_id owner_id) _ h in
      let (_, h) = guard_inv (leb 1 (length members) && leb (length members) 256) _ h in
      let (hashes, m, h) = bind_inv (hash_members sha256 [] members) _ h in
      let (_, h) = guard_inv (is_key owner_id hashes) _ h in
      let ((revision, raw), _, h) = bind_inv (fetch_state git head) _ h in
      let (_, h) = guard_inv (is_sha_hex revision) _ h in
      let (state, _, h) = bind_inv (parse_state raw) _ h in
      let (_, h) = guard_inv (str_eq state.session_id session_id) _ h in
      let same : hashes ≡ c.credential_hashes = ground arith in m ∙ ap ok same

  -- A coordinator that was configured with members takes the credential of a member for that member,
  -- and takes a credential for a member only if it has the hash of the one configured for that member.
  pub connect-authenticate :
      (git : Git) (session_id owner_id : String) (members : List (String × String)) (head : String)
      (c : Coordinator)
      → connect sha256 git session_id owner_id members head ≡ ok c
      → ((member credential : String)
          → Memᴰ (member, credential) members
          → authenticate sha256 c credential ≡ ok member)
        × ((credential who : String)
            → authenticate sha256 c credential ≡ ok who
            → (own : String) × Memᴰ (who, own) members
              × (credential_hash sha256 credential ≡ credential_hash sha256 own))
  unfolding authenticate
  connect-authenticate git session_id owner_id members head c h =
      let hashed = connect_inv git session_id owner_id members head c h in
      (
        λ member credential i.
            let (digest, own, found) =
              principal_of_hashed member credential [] members c.credential_hashes hashed i in
            rw (own, found) refl,
        λ credential who a.
            let (digest, own, a) =
              bind_inv (require (credential_hash sha256 credential) access_denied) _ a in
            let (y, i, same) =
              configured_principal who digest [] members c.credential_hashes hashed
                (require_inv (principal_of digest c.credential_hashes) _ a) in
            (y, i, require_inv (credential_hash sha256 credential) _ own ∙ sym same),
      )
