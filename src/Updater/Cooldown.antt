-- ===== src/Updater/Cooldown.antt =====
-- What a check reports, and that within the cooldown it asks nobody and reports the same.
use mathlib.Core.Path.{subst}
use ai_agent_ollama.Base.{
  ℕ, zero, suc, ◌+◌, ◌<◌, leb, String, ◌≡◌, refl, sym, ◌∙◌, ap, inl, inr, true, false, Option, none,
  some, is_some, [], str_eq, if◌then◌else◌, Bool-cases, Result, ok, ◌>>=◌, >>=-eq-ok, arith,
}
use ai_agent_ollama.Base.Dict.{lookup}
use ai_agent_ollama.Values.{
  pos, Value, Fields, null, bool, int, float, str, arr, obj, other, end, field, get_or, truthy,
  text_of,
}
use ai_agent_ollama.Errors.{Exception}
use ai_agent_ollama.Updater.{is_newer}
use ai_agent_ollama.Updater.Check.{
  Updater, Release, UpdateCheck, check_interval_seconds, or_value, state_get, last_check,
  should_check, fetch_latest, from_api, cached_release, newer_release, from_state, from_release,
  remembered, cached_fields, check_online, check,
}

abbrev pub release_version : Option Release → Option String
release_version none = none
release_version (some r) = some r.version

-- the last check is read back
or_value_time : (t : ℕ) → or_value (int (pos t)) (int (pos 0)) ≡ int (pos t)
unfolding truthy
or_value_time zero = refl
or_value_time (suc t) = refl

module _ (u : Updater) where
  -- what is written to the file
  abbrev state : ℕ → Option Release → Fields
  state t none = field "checked_at" (int (pos t)) end
  state t (some r) = remembered u t r

  -- what is remembered of a release
  abbrev kept : Option Release → Option Release
  kept none = none
  kept (some r) = some (record r { notes = u.first 1000 r.notes; published_at = ""; assets = [] })

  abbrev expected : ℕ → Option Release → UpdateCheck
  expected t release = record {
    current_version = u.current_version;
    available = is_some (newer_release u (kept release));
    release = newer_release u (kept release);
    error = none;
    checked_at = t;
  }

module _ (u : Updater) (reads : (t : ℕ) → u.seconds (int (pos t)) ≡ ok t)
    (writes : u.writable ≡ true) where
  -- a release that can be remembered
  abbrev Named : Option Release → Type 0
  Named none = Unit
  Named (some r) = str_eq r.version "" ≡ false

  found : {x y : Option Release} → Path (Result Exception (Option Release)) (ok x) (ok y) → x ≡ y
  found h = cc

  fetched_name :
      (r : Release) (release : Option Release)
      → Path
          (Result Exception (Option Release))
          (ok (if str_eq r.version "" then none else some r))
          (ok release)
      → Named release
  fetched_name r release h = elim (Bool-cases (str_eq r.version "")) [
    | inl e ↦ subst Named (found (rw e at h)) tt
    | inr e ↦ subst Named (found (rw e at h)) e
  ]

  fetched-Named :
      (response : Option Value) (release : Option Release)
      → fetch_latest u response ≡ ok release
      → Named release
  unfolding fetch_latest
  fetched-Named none release h = subst Named (found h) tt
  fetched-Named (some (obj payload)) release h =
      let (r, _, same) =
        >>=-eq-ok (from_api u payload) (λ r. ok (if str_eq r.version "" then none else some r)) h in
      fetched_name r release same
  fetched-Named (some null) release h = subst Named (found h) tt
  fetched-Named (some (bool b)) release h = subst Named (found h) tt
  fetched-Named (some (int n)) release h = subst Named (found h) tt
  fetched-Named (some (float x)) release h = subst Named (found h) tt
  fetched-Named (some (str x)) release h = subst Named (found h) tt
  fetched-Named (some (arr xs)) release h = subst Named (found h) tt
  fetched-Named (some (other x)) release h = subst Named (found h) tt

  early :
      (t now : ℕ) → now < t + check_interval_seconds → leb (t + check_interval_seconds) now ≡ false
  early t now h = ground arith

  file_after :
      (t : ℕ) (file : Option Value) (release : Option Release)
      → (from_release u t file release).1 ≡ some (obj (state u t release))
  unfolding from_release
  file_after t file none = rw writes refl
  file_after t file (some r) = rw writes refl

  last_read : (t : ℕ) (release : Option Release) → last_check u (obj (state u t release)) ≡ ok t
  unfolding last_check state_get get_or lookup
  last_read t none = rw (or_value_time t) (reads t)
  last_read t (some r) = rw (or_value_time t) (reads t)

  cached_null : cached_release u null ≡ none
  unfolding cached_release
  cached_null = refl

  cached_read :
      (r : Release)
      → str_eq r.version "" ≡ false
      → cached_release u (cached_fields u r) ≡ kept u (some r)
  unfolding cached_release get_or lookup truthy text_of
  cached_read r named = rw named refl

  state_read :
      (t : ℕ) (release : Option Release)
      → Named release
      → from_state u (obj (state u t release)) ≡ ok (expected u t release)
  unfolding from_state state_get get_or lookup
  state_read t none named = rw (last_read t none, cached_null) refl
  state_read t (some r) named = rw (last_read t (some r), cached_read r named) refl

  within :
      (t now : ℕ) (response : Option Value) (release : Option Release)
      → now < t + check_interval_seconds
      → check u false now (some (obj (state u t release))) response ≡ (
          from_state u (obj (state u t release)) >>= λ answer.
          ok (answer, some (obj (state u t release))))
  unfolding check should_check
  within t now response release h = rw (last_read t release, early t now h) refl

  check_again :
      (t now : ℕ) (response : Option Value) (release : Option Release)
      → Named release
      → now < t + check_interval_seconds
      → check u false now (some (obj (state u t release))) response
        ≡ ok (expected u t release, some (obj (state u t release)))
  unfolding check should_check
  check_again t now response release named h =
      within t now response release h
      ∙ ap (λ r. r >>= λ answer. ok (answer, some (obj (state u t release))))
          (state_read t release named)

  kept_version :
      (release : Option Release)
      → (is_some (newer_release u (kept u release)) ≡ is_some (newer_release u release))
        × (release_version (newer_release u (kept u release))
            ≡ release_version (newer_release u release))
  unfolding newer_release
  kept_version none = (refl, refl)
  kept_version (some r) = elim (Bool-cases (is_newer u.patterns r.version u.current_version)) [
    | inl e ↦ rw e (refl, refl)
    | inr e ↦ rw e (refl, refl)
  ]

  pair_injective :
      {x y : UpdateCheck × Option Value}
      → Path (Result Exception (UpdateCheck × Option Value)) (ok x) (ok y)
      → x ≡ y
  pair_injective h = cc

  available_of :
      (t : ℕ) (file : Option Value) (release : Option Release)
      → ((from_release u t file release).0.available ≡ is_some (newer_release u release))
        × ((from_release u t file release).0.release ≡ newer_release u release)
  unfolding from_release newer_release
  available_of t file none = (refl, refl)
  available_of t file (some r) = (refl, refl)

  reported :
      (t now : ℕ) (file later : Option Value) (release : Option Release) (first : UpdateCheck)
      (after : Option Value)
      → Named release
      → Path
          (Result Exception (UpdateCheck × Option Value))
          (ok (from_release u t file release))
          (ok (first, after))
      → now < t + check_interval_seconds
      → (answer : UpdateCheck) × (check u false now after later ≡ ok (answer, after))
        × (answer.available ≡ first.available)
        × (release_version answer.release ≡ release_version first.release)
  reported t now file later release first after named same soon =
      let e = pair_injective same in
      let is_after : after ≡ some (obj (state u t release)) =
        ap (λ x. x.1) (sym e) ∙ file_after t file release in
      let (is_available, is_release) = available_of t file release in
      let (same_available, same_version) = kept_version release in
      (
        expected u t release,
        rw is_after (check_again t now later release named soon),
        same_available ∙ sym is_available ∙ ap (λ x. x.0.available) e,
        same_version
            ∙ ap release_version (sym is_release)
            ∙ ap (λ x. release_version x.0.release) e,
      )

  -- Within a day after a check that reached or missed its server, a check that is not forced returns,
  -- whatever the server would answer, leaves the file, and reports the same availability and version.
  pub cooldown_lem :
      (t now : ℕ) (file response later : Option Value) (first : UpdateCheck) (after : Option Value)
      → check u true t file response ≡ ok (first, after)
      → now < t + check_interval_seconds
      → (answer : UpdateCheck) × (check u false now after later ≡ ok (answer, after))
        × (answer.available ≡ first.available)
        × (release_version answer.release ≡ release_version first.release)
  unfolding check check_online
  cooldown_lem t now file response later first after h soon =
      let (release, fetched, same) =
        >>=-eq-ok (fetch_latest u response) (λ release. ok (from_release u t file release)) h in
      reported t now file later release first after (fetched-Named response release fetched) same
        soon
