-- ===== src/Redis/Contract.antt =====
-- The store of src/redis_store.rs keeps the contract of `SessionStore`.
use saysion.Prelude.{
  ℕ, String, ◌≡◌, refl, sym, ap, subst, ◌∙◌, true, false, inl, inr, Option, none, some, arith,
  Result, ok, is_some, str_eq_refl, str_eq, str_eq_iff, Bool-cases, before, starts_with,
  if◌then◌else◌, Option-cases,
}
use saysion.Lifecycle.{pending, ready}
use saysion.Session.State.{Lineage, Session, Owned, data_changed}
use saysion.Session.Identity.{persistence_attempt, persistence_origin}
use saysion.Session.Cookies.{External}
use saysion.Session.Persist.{deletion_target}
use saysion.Backend.{Schedule}
use saysion.Backend.Deletes.{destroy_record-eq-ok}
use saysion.Backend.Loads.{load_record-eq-ok}
use saysion.Backend.Rows.{saved}
use saysion.Contract.{SessionStore, IsRevoking, after_save}
use saysion.Redis
use saysion.Redis.{key, delete_entry, store_session}
use saysion.Redis.Commands.{Server, Entry, IsServer}
use saysion.Redis.Outcomes.{target}
use saysion.Redis.Saves.{store_session_puts_or_expires}
use saysion.Redis.Writes.{delete_entry-eq-ok}
use saysion.Redis.Scan
use saysion.Redis.Scan.Clears.{IsScanned, clear_store-only-prefix}

starts_with-before : (p s : String) → starts_with p (before p s) ≡ true
starts_with-before String.[] s = refl
starts_with-before (String.◌∷◌ c p) s = ground (arith, starts_with-before p s)

abbrev tail : String → String
tail String.[] = String.[]
tail (String.◌∷◌ c s) = s

before-injective : (p a b : String) → before p a ≡ before p b → a ≡ b
before-injective String.[] a b h = h
before-injective (String.◌∷◌ c p) a b h = before-injective p a b (ap tail h)

-- Keys under one prefix are equal if their identities are.
str_eq-before : (p a b : String) → str_eq (before p a) (before p b) ≡ str_eq a b
str_eq-before p a b = elim (Bool-cases (str_eq a b)) [
  | inl same ↦
      (str_eq_iff (before p a) (before p b)).1 (ap (before p) ((str_eq_iff a b).0 same)) ∙ sym same
  | inr other ↦ elim (Bool-cases (str_eq (before p a) (before p b))) [
    | inl bad ↦ absurd (
        ground (
          arith,
          other,
          (str_eq_iff a b).1
              (before-injective p a b ((str_eq_iff (before p a) (before p b)).0 bad)),
        ))
    | inr apart ↦ apart ∙ sym other
  ]
]

unwrapped : (a b : Option String) → ok a ≡ ok b → a ≡ b
unwrapped a b h = cc

module _ {D : Type 0} (server : Server D) (prefix : String) (x : External)
    (to_string : Owned → Result String) (from_str : String → Result Owned) (sched : Schedule)
    (now fuel : ℕ) where
  -- Out of fuel, `clear_store` is still running.
  unfoldable pub redis_store : SessionStore D
  unfolding Redis.load_session Redis.store_session Redis.destroy_session Scan.clear_store
  redis_store = record {
    load_session = Redis.load_session server prefix x from_str now;
    store_session = Redis.store_session server prefix to_string sched now;
    destroy_session = Redis.destroy_session server prefix;
    clear_store = λ d. elim (Scan.clear_store server prefix fuel d) [
      | none ↦ (pending, d)
      | some (answer, d') ↦ (ready answer, d')
    ];
  }

  module _ (v : IsServer server) (u : IsScanned server v) where
    found :
        (s : Session) (l : Lineage) (d : D) (cookie : String)
        → (store_session server prefix to_string sched now s l d).answer ≡ ready (ok (some cookie))
        → (origin : Option String) × ((persistence_attempt l s).0 ≡ ok origin)
          × (is_some (v.entry (key prefix (target origin s)) d) ≡ is_some origin)
          × ((j : String)
              → is_some (
                  v.entry
                    (key prefix j)
                    (store_session server prefix to_string sched now s l d).rows)
                ≡ after_save s.id origin j (is_some (v.entry (key prefix j) d)))
    unfolding key
    found s l d cookie h =
        let (origin, known, (json, _, effect)) =
          store_session_puts_or_expires server v prefix sched now s to_string l d (some cookie) h in
        elim effect [
          | inl (_, _, issued, _) ↦ absurd (ground (arith, issued))
          | inr (px, _, there, left, _) ↦ (
            origin,
            known,
            there,
            λ j.
                ap is_some (left (key prefix j))
                ∙ kept origin j (json, px) (v.entry (key prefix j) d),
          )
        ]
      where
        kept :
            (origin : Option String) (j : String) (new : Entry) (was : Option Entry)
            → is_some (
                saved
                  (elim origin [ none ↦ none | some old_id ↦ some (key prefix old_id) ])
                  (key prefix s.id)
                  new
                  (key prefix j)
                  was)
              ≡ after_save s.id origin j (is_some was)
        kept none j new was = ground (arith, str_eq-before prefix s.id j)
        kept (some old_id) j new was =
            ground (arith, str_eq-before prefix s.id j, str_eq-before prefix old_id j)

    loaded :
        (cookie : String) (d : D) (o : Owned)
        → Redis.load_session server prefix x from_str now cookie d ≡ ok (some o)
        → (is_some (v.entry (key prefix o.session.id) d) ≡ true)
          × (persistence_origin o.lineage o.session ≡ ok (some o.session.id))
          × (data_changed o.lineage o.session ≡ false)
    unfolding Redis.load_session
    loaded cookie d o h =
        let (json, e, origin, clean) =
          load_record-eq-ok x from_str now (λ id. server.get (key prefix id) d) cookie o h in
        (
          there (v.entry (key prefix o.session.id) d) json
              (v.gets (key prefix o.session.id) d (some json) e),
          origin,
          clean,
        )
      where
        there :
            (r : Option Entry) (json : String)
            → some json ≡ elim r [ none ↦ none | some (value, _) ↦ some value ]
            → is_some r ≡ true
        there none json e = cc
        there (some r) json e = refl

    updated :
        (s : Session) (d : D) (a : Result (Option String)) (origin given : Option String)
        → a ≡ ok origin
        → a ≡ ok given
        → is_some (v.entry (key prefix (target origin s)) d) ≡ is_some origin
        → is_some (v.entry (key prefix (target given s)) d) ≡ is_some given
    updated s d a origin given e f there =
        subst (λ o. is_some (v.entry (key prefix (target o s)) d) ≡ is_some o)
          (unwrapped origin given (sym e ∙ f)) there

    cleared :
        (id : String) (d : D)
        → (redis_store.clear_store d).0 ≡ ready (ok tt)
        → v.entry (key prefix id) (redis_store.clear_store d).1 ≡ none
    unfolding redis_store key
    cleared id d h = elim (Option-cases (Scan.clear_store server prefix fuel d)) [
      | inl running ↦ absurd (ground (arith, running, h))
      | inr ((answer, after), e) ↦
          let same : (redis_store.clear_store d).1 ≡ after = ground (arith, e) in
          elim (clear_store-only-prefix server v u prefix (key prefix id) fuel d after answer e) [
            | inl (_, left) ↦
                ap (v.entry (key prefix id)) same
                ∙ (left
                    ∙ ap (λ b. if b then none else v.entry (key prefix id) d)
                        (starts_with-before prefix id))
            | inr (x, bad, _) ↦ absurd (ground (arith, e, bad, h))
          ]
    ]

    -- The Redis store keeps the contract of `SessionStore`, if its server does what the manual says.
    pub redis-IsRevoking : IsRevoking redis_store (λ id d. is_some (v.entry (key prefix id) d))
    unfolding redis_store Redis.destroy_session
    redis-IsRevoking = record {
      creates = λ s l d cookie a h.
          let (origin, known, there, _) = found s l d cookie h in
          updated s d (persistence_attempt l s).0 origin none known a there;
      updates = λ s l d cookie source a h.
          let (origin, known, there, _) = found s l d cookie h in
          updated s d (persistence_attempt l s).0 origin (some source) known a there;
      stores = λ s l d cookie h.
          let (origin, known, _, left) = found s l d cookie h in (origin, known, left);
      loads = loaded;
      destroys = λ s l d h.
          let (good, same) = destroy_record-eq-ok (delete_entry server prefix) s l d h in
          let t = deletion_target l s in
          ap (λ e. is_some (v.entry (key prefix t) e)) same
          ∙ (ap is_some (delete_entry-eq-ok server v prefix t d good (key prefix t))
              ∙ ground (arith, str_eq_refl (key prefix t)));
      clears = λ id d h. ap is_some (cleared id d h);
    }
