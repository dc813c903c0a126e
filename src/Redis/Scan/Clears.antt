-- ===== src/Redis/Scan/Clears.antt =====
-- What `clear_store` of src/redis_store.rs leaves.
use saysion.Prelude.{
  ℕ, zero, suc, String, ◌≡◌, refl, ap, ◌∙◌, Bool, true, false, ◌⊎◌, inl, inr, none, some, List, [],
  ◌∷◌, arith, Error, Result, ok, err, ◌==◌, is_some, starts_with, Bool-cases, Result-cases,
  if◌then◌else◌,
}
use saysion.Redis.{prefix_pattern}
use saysion.Redis.Commands.{Server, IsServer}
use saysion.Redis.Scan.{retain, chunks, unlink_batches, unlink_keys, clear_from, clear_store}
use saysion.Redis.Scan.Chunks.{holds, joined, holds-retain, holds-++, joined-chunks}
use saysion.Redis.Scan.Pattern.{Glob, prefix_pattern-matches}

-- What the store relies on: `UNLINK` removes the keys that it is given and no others, and a full
-- iteration of `SCAN` returns each key that is there throughout and matches, so that a key ahead of
-- a cursor is returned by its call or stays ahead of the next one.
pub record IsScanned {D : Type 0} (server : Server D) (v : IsServer server) : Type 0 where
  pub glob : Glob
  pub unlinks_only :
      (keys : List String) (k : String) (d : D)
      → holds k keys ≡ false
      → v.entry k (server.unlink keys d).1 ≡ v.entry k d
  pub unlinks :
      (keys : List String) (n : ℕ) (k : String) (d : D)
      → (server.unlink keys d).0 ≡ ok n
      → v.entry k (server.unlink keys d).1 ≡ (if holds k keys then none else v.entry k d)
  pub ahead : ℕ → String → Bool
  pub starts : (k : String) → ahead 0 k ≡ true
  pub returns :
      (cursor : ℕ) (pattern : String) (hint : ℕ) (d : D) (next : ℕ) (keys : List String)
      (k : String)
      → server.scan cursor pattern hint d ≡ ok (next, keys)
      → glob.matches pattern k ≡ true
      → is_some (v.entry k d) ≡ true
      → ahead cursor k ≡ true
      → (holds k keys ≡ true) ⊎ (((next == 0) ≡ false) × (ahead next k ≡ true))

module _ {D : Type 0} (server : Server D) (v : IsServer server) (u : IsScanned server v)
    (prefix k : String) where
  unlink_batches-only :
      (batches : List (List String)) (d : D)
      → holds k (joined batches) ≡ false
      → v.entry k (unlink_batches server prefix batches d).1 ≡ v.entry k d
  unfolding unlink_batches
  unlink_batches-only [] d h = refl
  unlink_batches-only (batch ∷ batches) d h = elim (Result-cases (server.unlink batch d).0) [
    | inl (e, bad) ↦ ap (v.entry k) (ground (arith, bad)) ∙ u.unlinks_only batch k d (here.0)
    | inr (n, good) ↦
        ap (v.entry k) (ground (arith, good))
        ∙ (unlink_batches-only batches (server.unlink batch d).1 here.1
            ∙ u.unlinks_only batch k d here.0)
  ]
    where
      here : (holds k batch ≡ false) × (holds k (joined batches) ≡ false)
      here = (
        ground (arith, h, holds-++ k batch (joined batches)),
        ground (arith, h, holds-++ k batch (joined batches)),
      )

  unlink_batches-ok :
      (batches : List (List String)) (d : D)
      → (unlink_batches server prefix batches d).0 ≡ ok tt
      → v.entry k (unlink_batches server prefix batches d).1
        ≡ (if holds k (joined batches) then none else v.entry k d)
  unfolding unlink_batches
  unlink_batches-ok [] d h = refl
  unlink_batches-ok (batch ∷ batches) d h = elim (Result-cases (server.unlink batch d).0) [
    | inl (e, bad) ↦ absurd (ground (arith, bad, h))
    | inr (n, good) ↦
        let next = (server.unlink batch d).1 in
        let rest = unlink_batches-ok batches next (ground (arith, good, h)) in
        let first = u.unlinks batch n k d good in
        ap (v.entry k) (ground (arith, good))
        ∙ (rest ∙ ground (arith, first, holds-++ k batch (joined batches)))
  ]

  unlink_keys-only :
      (keys : List String) (d : D)
      → starts_with prefix k ≡ false
      → v.entry k (unlink_keys server prefix keys d).1 ≡ v.entry k d
  unfolding unlink_keys
  unlink_keys-only keys d h = unlink_batches-only (chunks 256 (retain prefix keys)) d (
      ap (holds k) (joined-chunks 256 (retain prefix keys))
      ∙ (holds-retain k prefix keys ∙ ground (arith, h)))

  unlink_keys-ok :
      (keys : List String) (d : D)
      → (unlink_keys server prefix keys d).0 ≡ ok tt
      → starts_with prefix k ≡ true
      → v.entry k (unlink_keys server prefix keys d).1
        ≡ (if holds k keys then none else v.entry k d)
  unfolding unlink_keys
  unlink_keys-ok keys d h p =
      unlink_batches-ok (chunks 256 (retain prefix keys)) d h
      ∙ ap (λ b. if b then none else v.entry k d)
          (ap (holds k) (joined-chunks 256 (retain prefix keys))
            ∙ (holds-retain k prefix keys ∙ ground (arith, p)))

  clear_from-keeps :
      (fuel cursor : ℕ) (d : D) (answer : Result (Unit {0})) (after : D)
      → starts_with prefix k ≡ false
      → clear_from server prefix fuel cursor d ≡ some (answer, after)
      → v.entry k after ≡ v.entry k d
  unfolding clear_from
  clear_from-keeps zero cursor d answer after p h = cc
  clear_from-keeps (suc fuel) cursor d answer after p h =
      elim (Result-cases (server.scan cursor (prefix_pattern prefix) 256 d)) [
        | inl (e, bad) ↦ ap (v.entry k) (ground (arith, bad, h))
        | inr ((next, keys), good) ↦
            let kept = unlink_keys-only keys d p in
            let d' = (unlink_keys server prefix keys d).1 in
            elim (Result-cases (unlink_keys server prefix keys d).0) [
              | inl (e, bad) ↦ ap (v.entry k) (ground (arith, good, bad, h)) ∙ kept
              | inr (_, done) ↦ elim (Bool-cases (next == 0)) [
                | inl last ↦ ap (v.entry k) (ground (arith, good, done, last, h)) ∙ kept
                | inr more ↦
                    clear_from-keeps fuel next d' answer after p
                      (ground (arith, good, done, more, h))
                    ∙ kept
              ]
            ]
      ]

  clear_from-clears :
      (fuel cursor : ℕ) (d after : D)
      → starts_with prefix k ≡ true
      → (v.entry k d ≡ none) ⊎ (u.ahead cursor k ≡ true)
      → clear_from server prefix fuel cursor d ≡ some (ok tt, after)
      → v.entry k after ≡ none
  unfolding clear_from
  clear_from-clears zero cursor d after p q h = cc
  clear_from-clears (suc fuel) cursor d after p q h =
      elim (Result-cases (server.scan cursor (prefix_pattern prefix) 256 d)) [
        | inl (e, bad) ↦ absurd (ground (arith, bad, h))
        | inr ((next, keys), good) ↦
            let d' = (unlink_keys server prefix keys d).1 in
            elim (Result-cases (unlink_keys server prefix keys d).0) [
              | inl (e, bad) ↦ absurd (ground (arith, good, bad, h))
              | inr (_, done) ↦
                  let left = passed cursor d next keys q good (unlink_keys-ok keys d done p) in
                  elim (Bool-cases (next == 0)) [
                    | inl last ↦
                        ap (v.entry k) (ground (arith, good, done, last, h))
                        ∙ gone next d' last left
                    | inr more ↦
                        clear_from-clears fuel next d' after p (on next d' left)
                          (ground (arith, good, done, more, h))
                  ]
            ]
      ]
    where
      Left : ℕ → D → Type 0
      Left next e = (v.entry k e ≡ none) ⊎ (((next == 0) ≡ false) × (u.ahead next k ≡ true))

      gone : (next : ℕ) (e : D) → (next == 0) ≡ true → Left next e → v.entry k e ≡ none
      gone next e last (inl x) = x
      gone next e last (inr (more, _)) = absurd (ground (arith, last, more))

      on : (next : ℕ) (e : D) → Left next e → (v.entry k e ≡ none) ⊎ (u.ahead next k ≡ true)
      on next e (inl x) = inl x
      on next e (inr (_, x)) = inr x

      passed :
          (cursor : ℕ) (d : D) (next : ℕ) (keys : List String)
          → (v.entry k d ≡ none) ⊎ (u.ahead cursor k ≡ true)
          → server.scan cursor (prefix_pattern prefix) 256 d ≡ ok (next, keys)
          → v.entry k (unlink_keys server prefix keys d).1
            ≡ (if holds k keys then none else v.entry k d)
          → Left next (unlink_keys server prefix keys d).1
      passed cursor d next keys (inl none_) good e = inl (e ∙ ground (arith, none_))
      passed cursor d next keys (inr ahead_) good e = elim (Bool-cases (is_some (v.entry k d))) [
        | inl there ↦
            elim (u.returns cursor (prefix_pattern prefix) 256 d next keys k good
              (prefix_pattern-matches u.glob prefix k ∙ p) there ahead_) [
                | inl returned ↦ inl (e ∙ ground (arith, returned))
                | inr later ↦ inr later
              ]
        | inr absent ↦ inl (e ∙ ground (arith, absent))
      ]

  -- While no other client writes and no key expires, and if the server answers what the manual says:
  -- if `clear_store` succeeds, no key that starts with the prefix is left, and every other key keeps
  -- its value and its time to live; if it fails on the way, the other keys keep theirs all the same.
  pub clear_store-only-prefix :
      (fuel : ℕ) (d after : D) (answer : Result (Unit {0}))
      → clear_store server prefix fuel d ≡ some (answer, after)
      → ((answer ≡ ok tt)
          × (v.entry k after ≡ (if starts_with prefix k then none else v.entry k d)))
        ⊎ ((e : Error) × (answer ≡ err e)
            × ((starts_with prefix k ≡ true) ⊎ (v.entry k after ≡ v.entry k d)))
  unfolding clear_store
  clear_store-only-prefix fuel d after answer h = elim (Result-cases answer) [
    | inl (e, bad) ↦ inr (
      e,
      bad,
      elim (Bool-cases (starts_with prefix k)) [
        | inl own ↦ inl own
        | inr other ↦ inr (clear_from-keeps fuel 0 d answer after other h)
      ],
    )
    | inr (_, good) ↦ inl (
      good,
      elim (Bool-cases (starts_with prefix k)) [
        | inl own ↦
            clear_from-clears fuel 0 d after own (inr (u.starts k))
              (h ∙ ap (λ a. some (a, after)) good)
            ∙ ground (arith, own)
        | inr other ↦ clear_from-keeps fuel 0 d answer after other h ∙ ground (arith, other)
      ],
    )
  ]
