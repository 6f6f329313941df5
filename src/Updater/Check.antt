-- ===== src/Updater/Check.antt =====
-- `Release` and `Updater` of local_agent/desktop/updater.py. The file of the state is the JSON value
-- in it, `none` where it is missing or cannot be read; times are whole seconds.
use Prim.Native.String.{len, slice}
use ai_agent_ollama.Base.{
  ℕ, ◌+◌, ◌-◌, leb, String, Bool, false, ◌&&◌, ◌||◌, Option, none, some, is_some, or_else, List, [],
  ◌∷◌, str_eq, if◌then◌else◌, Result, ok, err, ◌>>=◌,
}
use ai_agent_ollama.Values.{
  pos, Value, Fields, Items, null, int, str, arr, obj, nil, cons, end, field, get_or, truthy,
  Conversions, text_of,
}
use ai_agent_ollama.Errors.{Exception, other, type_error}
use ai_agent_ollama.Updater.{Patterns, is_newer}

pub record Release : Type 0 where
  pub version : String
  pub name : String
  pub url : String
  pub notes : String
  pub published_at : String
  pub assets : List String

pub record UpdateCheck : Type 0 where
  pub current_version : String
  pub available : Bool
  pub release : Option Release
  pub error : Option String
  pub checked_at : ℕ

-- `seconds` is `float(…)`, and `first` a slice of the first characters. `writable` says that the file
-- of the state can be written, false where there is no directory for it.
pub record Updater : Type 0 where
  pub current_version : String
  pub patterns : Patterns
  pub conversions : Conversions
  pub seconds : Value → Result Exception ℕ
  pub first : ℕ → String → String
  pub writable : Bool

abbrev pub check_interval_seconds : ℕ
check_interval_seconds = 86400

-- `a or b`
abbrev pub or_value : Value → Value → Value
or_value a b = if truthy a then a else b

abbrev attribute_error : Exception
attribute_error = other "AttributeError" "the object has no attribute 'get'"

-- the assets that have an address
unfoldable pub asset_urls : Updater → Items → Result Exception (List String)
unfolding truthy text_of get_or
asset_urls u nil = ok []
asset_urls u (cons (obj a) rest) = asset_urls u rest >>= λ urls. ok (
    if truthy (get_or a "browser_download_url" null)
    then text_of u.conversions (get_or a "browser_download_url" (str "")) ∷ urls
    else urls)
asset_urls u (cons item rest) = err attribute_error

unfoldable pub assets_of : Updater → Value → Result Exception (List String)
unfolding asset_urls
assets_of u (arr items) = asset_urls u items
assets_of u (obj fs) = err attribute_error
assets_of u (str s) = err attribute_error
assets_of u value = err (type_error "the object is not iterable")

abbrev text_or_else : Updater → Fields → String → Value → String
text_or_else u payload key default =
    text_of u.conversions (or_value (get_or payload key null) default)

-- `Release.from_api`
unfoldable pub from_api : Updater → Fields → Result Exception Release
unfolding assets_of truthy text_of get_or
from_api u payload =
    let tag = text_of u.conversions (
      or_value (get_or payload "tag_name" null) (or_value (get_or payload "name" null) (str ""))) in
    assets_of u (or_value (get_or payload "assets" null) (arr nil)) >>= λ assets. ok (record {
      version = tag;
      name = text_or_else u payload "name" (str tag);
      url =
          text_or_else u payload "html_url"
            (str "https://github.com/Alirezahjf/AI_Agent_OLLAMA/releases");
      notes = u.first 4000 (text_or_else u payload "body" (str ""));
      published_at = text_or_else u payload "published_at" (str "");
      assets = assets;
    })

abbrev ends_with : String → String → Bool
ends_with suffix text =
    leb (len suffix) (len text) && str_eq (slice text (len text - len suffix) (len text)) suffix

unfoldable pub first_installer : Patterns → List String → Option String
first_installer p [] = none
first_installer p (url ∷ rest) =
    let later = first_installer p rest in
    if ends_with ".exe" (p.lower url) || ends_with ".msi" (p.lower url) then some url else later

-- `Release.installer_url`
unfoldable pub installer_url : Patterns → Release → Option String
unfolding first_installer
installer_url p r = first_installer p r.assets

-- `_load_state`
abbrev pub load_state : Option Value → Value
load_state file = or_else file (obj end)

-- `_save_state`
abbrev pub save_state : Updater → Fields → Option Value → Option Value
save_state u state file = if u.writable then some (obj state) else file

-- `state.get(key)`
unfoldable pub state_get : Value → String → Result Exception Value
unfolding get_or
state_get (obj state) key = ok (get_or state key null)
state_get value key = err attribute_error

-- `float(state.get("checked_at") or 0)`
unfoldable pub last_check : Updater → Value → Result Exception ℕ
unfolding state_get truthy
last_check u state =
    state_get state "checked_at" >>= λ last. u.seconds (or_value last (int (pos 0)))

unfoldable pub should_check : Updater → (now : ℕ) → Option Value → Result Exception Bool
unfolding last_check
should_check u now file =
    last_check u (load_state file) >>= λ last. ok (leb (last + check_interval_seconds) now)

-- `fetch_latest`: `response` is the JSON value of the answer, `none` where the request or the reading of
-- its JSON failed
unfoldable pub fetch_latest :
    Updater → (response : Option Value) → Result Exception (Option Release)
unfolding from_api
fetch_latest u (some (obj payload)) =
    from_api u payload >>= λ release. ok (if str_eq release.version "" then none else some release)
fetch_latest u response = ok none

-- the release that the state remembers
unfoldable pub cached_release : Updater → Value → Option Release
unfolding truthy text_of get_or
cached_release u (obj cached) =
    if truthy (get_or cached "version" null)
    then some (record {
      version = text_of u.conversions (get_or cached "version" (str ""));
      name = text_of u.conversions (get_or cached "name" (str ""));
      url = text_of u.conversions (get_or cached "url" (str ""));
      notes = text_of u.conversions (get_or cached "notes" (str ""));
      published_at = "";
      assets = [];
    })
    else none
cached_release u value = none

-- the release that is reported, if it is newer
unfoldable pub newer_release : Updater → Option Release → Option Release
unfolding is_newer
newer_release u none = none
newer_release u (some r) = if is_newer u.patterns r.version u.current_version then some r else none

-- the answer from the state, within the cooldown
unfoldable pub from_state : Updater → Value → Result Exception UpdateCheck
unfolding state_get cached_release newer_release last_check
from_state u state = state_get state "release" >>= λ cached. last_check u state >>= λ last.
    let release = newer_release u (cached_release u cached) in
    ok (record {
      current_version = u.current_version;
      available = is_some release;
      release = release;
      error = none;
      checked_at = last;
    })

abbrev pub cached_fields : Updater → Release → Value
cached_fields u r = obj (
    field "version" (str r.version) (
      field "name" (str r.name)
        (field "url" (str r.url) (field "notes" (str (u.first 1000 r.notes)) end))))

abbrev pub remembered : Updater → ℕ → Release → Fields
remembered u now r = field "checked_at" (int (pos now)) (field "release" (cached_fields u r) end)

-- the answer once the request returned
unfoldable pub from_release :
    Updater → ℕ → Option Value → Option Release → UpdateCheck × Option Value
unfolding newer_release
from_release u now file none = (
  record {
    current_version = u.current_version;
    available = false;
    release = none;
    error = some "could not reach GitHub";
    checked_at = now;
  },
  save_state u (field "checked_at" (int (pos now)) end) file,
)
from_release u now file (some r) =
    let release = newer_release u (some r) in
    (
      record {
        current_version = u.current_version;
        available = is_some release;
        release = release;
        error = none;
        checked_at = now;
      },
      save_state u (remembered u now r) file,
    )

unfoldable pub check_online :
    Updater → ℕ → Option Value → Option Value → Result Exception (UpdateCheck × Option Value)
unfolding fetch_latest from_release
check_online u now file response =
    fetch_latest u response >>= λ release. ok (from_release u now file release)

-- `check`, with the file as it is afterwards
unfoldable pub check :
    Updater
    → (force : Bool) → (now : ℕ) → (file response : Option Value)
    → Result Exception (UpdateCheck × Option Value)
unfolding should_check from_state check_online
check u force now file response =
    if force
    then check_online u now file response
    else (should_check u now file >>= λ due.
        if due
        then check_online u now file response
        else (from_state u (load_state file) >>= λ answer. ok (answer, file)))
