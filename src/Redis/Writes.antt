-- ===== src/Redis/Writes.antt =====
-- The keys after the writes of src/redis_store.rs: `SET`, and the script of a rotation.
use saysion.Prelude.{
  ℕ, String, ◌≡◌, refl, sym, ap, ◌∙◌, Bool, true, false, Option, none, some, inl, inr, arith,
  Result, ok, err, >>=-eq-ok, ◌==◌, ltb, is_some, str_eq, str_eq_iff, Bool-cases, before,
  if◌then◌else◌,
}
use saysion.Backend.Rows.{deleted, put, saved, put-from, deleted-from}
use saysion.Redis.{
  key, saved_some, rotated_some, rotate_script, rotate_entry, set_entry, delete_entry,
}
use saysion.Redis.Commands.{Server, IsServer}

tail : String → String
tail String.[] = String.[]
tail (String.◌∷◌ c s) = s

before-injective : (p a b : String) → before p a ≡ before p b → a ≡ b
before-injective String.[] a b h = h
before-injective (String.◌∷◌ c p) a b h = before-injective p a b (unfold tail in ap tail h)

-- Identities that differ have keys that differ.
pub key-apart : (p a b : String) → str_eq a b ≡ false → str_eq (key p a) (key p b) ≡ false
unfolding key
key-apart p a b h = elim (Bool-cases (str_eq (before p a) (before p b))) [
  | inl same ↦ absurd (
      ground (
        arith,
        h,
        (str_eq_iff a b).1 (before-injective p a b ((str_eq_iff (before p a) (before p b)).0 same)),
      ))
  | inr other ↦ other
]

saved_some-eq-ok :
    (r : Result (Option String)) → saved_some r ≡ ok tt → (answer : String) × (r ≡ ok (some answer))
unfolding saved_some
saved_some-eq-ok (err e) h = cc
saved_some-eq-ok (ok none) h = cc
saved_some-eq-ok (ok (some answer)) h = (answer, refl)

rotated_some-eq-ok :
    (r : Result ℕ) → rotated_some r ≡ ok tt → (n : ℕ) × (r ≡ ok n) × ((n == 0) ≡ false)
unfolding rotated_some
rotated_some-eq-ok (err e) h = cc
rotated_some-eq-ok (ok n) h = (n, refl, ground (arith, h))

-- A deletion of another key after a write.
deleted-put :
    {R : Type 0} (old new : String) (x : R) (j : String) (row : Option R)
    → str_eq old new ≡ false
    → deleted old j (put new x j row) ≡ saved (some old) new x j row
deleted-put old new x j row h = elim (Bool-cases (str_eq new j)) [
  | inl same ↦
      let apart : str_eq old j ≡ false = ap (str_eq old) (sym ((str_eq_iff new j).0 same)) ∙ h in
      ground (arith, same, apart)
  | inr other ↦ ground (arith, other)
]

module _ {D : Type 0} (server : Server D) (v : IsServer server) (prefix : String) where
  pub delete_entry-eq-ok :
      (id : String) (d : D)
      → (delete_entry server prefix id d).0 ≡ ok tt
      → (j : String)
      → v.entry j (delete_entry server prefix id d).1 ≡ deleted (key prefix id) j (v.entry j d)
  unfolding delete_entry
  delete_entry-eq-ok id d h =
      let (n, e, _) = >>=-eq-ok (server.del (key prefix id) d).0 (λ n. ok tt) h in
      deleted-from (λ j. v.entry j d) (λ j. v.entry j (server.del (key prefix id) d).1)
        (key prefix id) (λ j. v.dels_only (key prefix id) j d) (v.dels (key prefix id) n d e)

  pub set_entry-eq-ok :
      (replaces : Bool) (id json : String) (px : Option ℕ) (d : D)
      → (set_entry server prefix replaces id json px d).0 ≡ ok tt
      → (is_some (v.entry (key prefix id) d) ≡ replaces)
        × ((j : String)
            → v.entry j (set_entry server prefix replaces id json px d).1
              ≡ put (key prefix id) (json, px) j (v.entry j d))
  unfolding set_entry
  set_entry-eq-ok replaces id json px d h =
      let x = server.set (key prefix id) json px replaces d in
      let (answer, e) = saved_some-eq-ok x.0 h in
      let (found, here) = v.sets (key prefix id) json px replaces answer d e in
      (
        found,
        put-from (λ j. v.entry j d) (λ j. v.entry j x.1) (key prefix id)
            (λ j. v.sets_only (key prefix id) json px replaces j d) (json, px) here,
      )

  script-effect :
      (old new json : String) (ttl n : ℕ) (d after : D)
      → str_eq old new ≡ false
      → rotate_script server prefix old new json ttl d ≡ (n, after)
      → (n == 0) ≡ false
      → (is_some (v.entry old d) ≡ true)
        × (is_some (v.entry new d) ≡ false)
        × ((j : String)
            → v.entry j after
              ≡ saved (some old) new (json, if ltb 0 ttl then some ttl else none) j (v.entry j d))
  unfolding rotate_script
  script-effect old new json ttl n d after apart h go =
      elim (Bool-cases (is_some (v.entry old d))) [
        | inr absent ↦ absurd (ground (arith, h, go, absent, v.exists_tells old d))
        | inl there ↦ elim (Bool-cases (is_some (v.entry new d))) [
          | inl taken ↦ absurd (ground (arith, h, go, taken, v.exists_tells new d))
          | inr free ↦ (there, free, λ j. effect there free j)
        ]
      ]
    where
      px : Option ℕ
      px = if ltb 0 ttl then some ttl else none

      whole :
          is_some (v.entry old d) ≡ true
          → is_some (v.entry new d) ≡ false
          → after ≡ server.del_in old (server.set_in new json px d)
      whole there free = elim (Bool-cases (ltb 0 ttl)) [
        | inl some_ ↦
            ground (arith, h, there, free, some_, v.exists_tells old d, v.exists_tells new d)
        | inr none_ ↦
            ground (arith, h, there, free, none_, v.exists_tells old d, v.exists_tells new d)
      ]

      effect :
          is_some (v.entry old d) ≡ true
          → is_some (v.entry new d) ≡ false
          → (j : String) → v.entry j after ≡ saved (some old) new (json, px) j (v.entry j d)
      effect there free j =
          ap (v.entry j) (whole there free)
          ∙ (v.del_drops old j (server.set_in new json px d)
              ∙ (ap (deleted old j) (v.set_puts new json px j d)
                  ∙ deleted-put old new (json, px) j (v.entry j d) apart))

  pub rotate_entry-eq-ok :
      (old_id id json : String) (ttl : ℕ) (d : D)
      → str_eq old_id id ≡ false
      → (rotate_entry server prefix old_id id json ttl d).0 ≡ ok tt
      → (is_some (v.entry (key prefix old_id) d) ≡ true)
        × ((j : String)
            → v.entry j (rotate_entry server prefix old_id id json ttl d).1
              ≡ saved
                  (some (key prefix old_id))
                  (key prefix id)
                  (json, if ltb 0 ttl then some ttl else none)
                  j
                  (v.entry j d))
  unfolding rotate_entry
  rotate_entry-eq-ok old_id id json ttl d other h =
      let script = rotate_script server prefix (key prefix old_id) (key prefix id) json ttl in
      let x = server.eval script d in
      let (n, e, go) = rotated_some-eq-ok x.0 h in
      let (there, _, effect) =
        script-effect (key prefix old_id) (key prefix id) json ttl n d x.1
          (key-apart prefix old_id id other) (v.evals script n d e) go in
      (there, effect)
