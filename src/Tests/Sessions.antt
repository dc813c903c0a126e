-- ===== src/Tests/Sessions.antt =====
-- The data, the identity and the cookies of a session.
use saysion.Prelude.{
  ℕ, ◌+◌, ◌<◌, ◌≡◌, refl, true, false, none, some, List, [], ◌∷◌, arith, ok, err, session_conflict,
  ◌↔◌, length,
}
use saysion.Prelude.{byte_len}
use saysion.Session.Revision
use saysion.Session.Revision.{SessionData, capture, acknowledge, is_dirty, u64_mod}
use saysion.Session.State.{Session, Owned, data_changed}
use saysion.Session.Identity.{persistence_attempt, mark_persisted, rotate}
use saysion.Session.Cookies.{id_from_cookie_value, new, regenerate}
use saysion.Session.Persist.{deletion_target}
use saysion.Session.Actions.{destroys, act_all}
use saysion.Session.Tracking
use saysion.Session.Tracking.{System, Step, Reach, here, next, loaded, begun, Save}
use saysion.Session.Rotation
use saysion.Session.Rotation.{rotate_all, IsSuperseded}
use saysion.Session.Fresh
use saysion.Tests.Fixtures.{
  program, crates, key64, id44, letters, values, data_, family, newcomer, visitor, str_ne,
}

-- A loaded session whose user changes, and whose save is captured, written and acknowledged.
abbrev edited : System
edited = record (loaded values) { data_ = Revision.insert_raw "user" "2" (loaded values).data_ }

abbrev saving : System
saving = record edited { data_ = (capture edited.data_).1; saves = begun edited ∷ [] }

abbrev sent : Save
sent = record (begun edited) { written = true }

abbrev landed_ : System
landed_ = record saving { saves = sent ∷ []; backend = edited.data_.values }

abbrev saved : System
saved = record landed_ { data_ = acknowledge sent.token landed_.data_; saves = [] }

few_edits : (loaded values).data_.revision + 1 < u64_mod
unfolding loaded u64_mod
few_edits = omega arith

history : Reach (loaded values) saved
unfolding loaded
history =
    next
      (next (next (next here (Step.inserts "user" "2" few_edits)) Step.captures)
        (Step.writes [] [] (begun edited) refl))
      (Step.acknowledges [] [] sent refl refl)

clean_data_is_persisted_example : saved.backend ≡ saved.data_.values
unfolding program
clean_data_is_persisted_example = Tracking.clean_data_is_persisted values saved history refl

abbrev busy : SessionData
busy = record data_ { active_saves = 1 }

creation_at_most_once_example :
    (persistence_attempt
      (act_all (destroys ∷ []) (persistence_attempt (family none) (newcomer "a")).1)
      (newcomer "b")).0
    ≡ err session_conflict
unfolding program
creation_at_most_once_example =
    Rotation.creation_at_most_once (newcomer "a") (newcomer "b") (family none) (destroys ∷ []) refl
      refl

overtaken : IsSuperseded (family (some "b")) (visitor "a")
unfolding program
overtaken = record {
  current = "b";
  persisted = refl;
  other = str_ne "a" "b" refl;
  elsewhere = λ e. cc;
}

superseded_has_no_authority_example :
    ((persistence_attempt (family (some "b")) (visitor "a")).0 ≡ err session_conflict)
    × (mark_persisted (family (some "b")) (visitor "a") ≡ family (some "b"))
    × (deletion_target (family (some "b")) (visitor "a") ≡ "a")
    × ((persistence_attempt
          (family (some "b"))
          (rotate (family (some "b")) "c" "k" (visitor "a"))).0
        ≡ err session_conflict)
unfolding program overtaken
superseded_has_no_authority_example =
    Rotation.superseded_has_no_authority (family (some "b")) (visitor "a") overtaken "c" "k"
      (str_ne "c" "b" refl)

abbrev reloaded : Owned
reloaded = record {
  session = visitor id44;
  lineage = record (family (some id44)) { data_ = record data_ { persisted_revision = 3 } };
}

id_from_cookie_value_iff_example : (id_from_cookie_value crates (letters 88) ≡ ok id44) ↔ (
    (bytes : List ℕ) × (byte_len (letters 88) ≡ 88)
    × (crates.base64_decode (letters 88) ≡ ok bytes)
    × (length bytes ≡ 64)
    × (id44 ≡ crates.base64_encode (crates.blake3 bytes)))
id_from_cookie_value_iff_example = Fresh.id_from_cookie_value_iff crates (letters 88) id44

new_session_example :
    (o : Owned) × (r : Session) × (new crates key64 ≡ ok o)
    × (o.session.cookie_value ≡ some (letters 88))
    × (id_from_cookie_value crates (letters 88) ≡ ok o.session.id)
    × (data_changed o.lineage o.session ≡ false)
    × ((persistence_attempt o.lineage o.session).0 ≡ ok none)
    × (regenerate crates (family (some "a")) key64 (visitor "a") ≡ ok r)
    × (r.cookie_value ≡ some (letters 88))
    × (id_from_cookie_value crates (letters 88) ≡ ok r.id)
unfolding program
new_session_example =
    Fresh.new_session crates key64 (family (some "a")) (visitor "a") refl refl refl
