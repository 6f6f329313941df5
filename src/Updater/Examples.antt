-- ===== src/Updater/Examples.antt =====
-- Two versions, and a release that was found.
use ai_agent_ollama.Base.{
  ◌≡◌, refl, ◌↔◌, true, false, not, ◌&&◌, is_some, Option, none, some, [], str_eq, if◌then◌else◌,
  ok, arith,
}
use ai_agent_ollama.Base.Dict.{lookup}
use ai_agent_ollama.Values.{
  pos, negsuc, Value, int, float, str, obj, end, field, get_or, truthy, text_of,
}
use ai_agent_ollama.Updater.{
  Patterns, parse_version, version_of, pre_rank, compare_versions, compare_parsed, compare_tuples,
  is_newer,
}
use ai_agent_ollama.Updater.Order.{newer_lem}
use ai_agent_ollama.Updater.Check.{
  Updater, Release, UpdateCheck, check, check_online, fetch_latest, from_api, assets_of, asset_urls,
  from_release, newer_release, remembered,
}
use ai_agent_ollama.Updater.Cooldown.{release_version, cooldown_lem}

abbrev patterns : Patterns
patterns = record {
  matched = λ s.
      if str_eq s "1.2"
      then some (record { major = 1; minor = some 2; patch = none; pre = "" })
      else if str_eq s "v1.3.0"
      then some (record { major = 1; minor = some 3; patch = some 0; pre = "" })
      else if str_eq s "1.3.0-rc1"
      then some (record { major = 1; minor = some 3; patch = some 0; pre = "rc1" })
      else none;
  lower = λ s. s;
  word = λ s. if str_eq s "rc1" then some "rc" else none;
}

final_after_candidate : is_newer patterns "v1.3.0" "1.3.0-rc1" ≡ true
unfolding is_newer compare_versions compare_parsed compare_tuples parse_version version_of pre_rank
    lookup
final_after_candidate = refl

newer_lem_example :
    (is_newer patterns "v1.3.0" "v1.3.0" ≡ false)
    × (is_newer patterns "v1.3.0" "1.3.0-rc1" && is_newer patterns "1.3.0-rc1" "v1.3.0" ≡ false)
    × ((is_newer patterns "v1.3.0" "1.3.0-rc1" && is_newer patterns "1.3.0-rc1" "1.2")
          && not (is_newer patterns "v1.3.0" "1.2")
        ≡ false)
    × (is_newer patterns "v1.3.0" "1.3.0-rc1" && not (is_some (parse_version patterns "v1.3.0"))
        ≡ false)
    × ((compare_versions patterns "v1.3.0" "1.3.0-rc1" ≡ pos 0)
        ↔ (parse_version patterns "v1.3.0" ≡ parse_version patterns "1.3.0-rc1"))
newer_lem_example = newer_lem patterns "v1.3.0" "1.3.0-rc1" "1.2"

abbrev updater : Updater
updater = record {
  current_version = "1.2";
  patterns = patterns;
  conversions = record {
    render = λ v. "";
    as_float = λ v. elim v [ float x ↦ some x | _ ↦ none ];
    as_float_float = λ x. refl;
  };
  seconds = λ v. ok (elim v [ int n ↦ elim n [ pos k ↦ k | negsuc k ↦ 0 ] | _ ↦ 0 ]);
  first = λ n s. s;
  writable = true;
}

abbrev answered : Option Value
answered = some (obj (field "tag_name" (str "v1.3.0") end))

abbrev newest : Release
newest = record {
  version = "v1.3.0";
  name = "v1.3.0";
  url = "https://github.com/Alirezahjf/AI_Agent_OLLAMA/releases";
  notes = "";
  published_at = "";
  assets = [];
}

abbrev found : UpdateCheck
found = record {
  current_version = "1.2";
  available = true;
  release = some newest;
  error = none;
  checked_at = 100;
}

first_check :
    check updater true 100 none answered ≡ ok (found, some (obj (remembered updater 100 newest)))
unfolding check check_online fetch_latest from_api assets_of asset_urls from_release newer_release
    is_newer compare_versions compare_parsed compare_tuples parse_version version_of pre_rank lookup
    get_or truthy text_of
first_check = refl

cooldown_lem_example :
    (answer : UpdateCheck) × (check updater false 5000
        (some (obj (remembered updater 100 newest)))
        none
      ≡ ok (answer, some (obj (remembered updater 100 newest))))
    × (answer.available ≡ true)
    × (release_version answer.release ≡ some "v1.3.0")
cooldown_lem_example =
    cooldown_lem updater (λ t. refl) refl 100 5000 none answered none found
      (some (obj (remembered updater 100 newest))) first_check (omega arith)
