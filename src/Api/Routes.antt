-- ===== src/Api/Routes.antt =====
-- internal/api/api.go: which handler gets a request, behind the guards and the check of the session. A path is given
-- by its escaped bytes; the way of net/http's ServeMux through the patterns is written out for these patterns.
pub mod Protected
use aiofiles.Prelude.{
  ℕ, String, Bool, true, false, not, ◌&&◌, ◌||◌, List, [], ◌∷◌, map, ◌==◌, if◌then◌else◌, codes,
  str_eq, Option, none, some,
}
use aiofiles.Prelude.Bytes.{Bytes, same_codes}
use aiofiles.Prelude.Split.{split_at}
use aiofiles.Proxy.{Net, Request}
use aiofiles.Auth.Manager.{Manager, authenticated}
use aiofiles.Api.Guards.{HostRules, Url, Verdict, passes, rejected, host_guard, origin_guard}

pub data Handler : Type 0 where
  health login logout me presets probe upload list_files create_job list_jobs events : Handler
  get_job cancel_job delete_job download reuse_file : Bytes → Handler

-- `protect` is not around these.
unfoldable pub is_open : Handler → Bool
is_open health = true
is_open login = true
is_open logout = true
is_open me = true
is_open _ = false

abbrev pub reads : String → Bool
reads m = str_eq m "GET" || str_eq m "HEAD"

abbrev pub is : String → Bytes → Bool
is word s = same_codes s (codes word)

-- The patterns with one, two and three elements behind /api; a wildcard matches an element that is not empty.
abbrev pub route_one : String → Bytes → Option Handler
route_one m a =
    if reads m && is "health" a
    then some health
    else if reads m && is "presets" a
    then some presets
    else if str_eq m "POST" && is "probe" a
    then some probe
    else if str_eq m "POST" && is "uploads" a
    then some upload
    else if reads m && is "files" a
    then some list_files
    else if str_eq m "POST" && is "jobs" a
    then some create_job
    else if reads m && is "jobs" a
    then some list_jobs
    else if reads m && is "events" a
    then some events
    else none

abbrev pub route_two : String → Bytes → Bytes → Option Handler
route_two m a b =
    if is "auth" a
    then if str_eq m "POST" && is "login" b
      then some login
      else if str_eq m "POST" && is "logout" b
      then some logout
      else if reads m && is "me" b
      then some me
      else none
    else if is "jobs" a && not (is "" b)
    then if reads m
      then some (get_job b)
      else if str_eq m "DELETE"
      then some (delete_job b)
      else none
    else none

abbrev pub route_three : String → Bytes → Bytes → Bytes → Option Handler
route_three m a b c =
    if is "jobs" a && not (is "" b)
    then if str_eq m "POST" && is "cancel" c
      then some (cancel_job b)
      else if reads m && is "download" c
      then some (download b)
      else if str_eq m "POST" && is "reuse" c
      then some (reuse_file b)
      else none
    else none

unfoldable pub route : String → List Bytes → Option Handler
route m (a ∷ []) = route_one m a
route m (a ∷ b ∷ []) = route_two m a b
route m (a ∷ b ∷ c ∷ []) = route_three m a b c
route m _ = none

-- What becomes of a request: a guard or the check of the session stops it, it is redirected, there is no such
-- endpoint below /api or no pattern at all, or a handler gets it.
pub data Outcome : Type 0 where
  bad_host bad_origin unauthorized moved no_endpoint no_pattern : Outcome
  handled : Handler → Outcome

abbrev pub is_dotted : Bytes → Bool
is_dotted s = is "." s || is ".." s

-- Whether `cleanPath` leaves the elements behind the first slash as they are: only the last may be empty.
unfoldable pub is_clean : List Bytes → Bool
is_clean [] = true
is_clean (s ∷ []) = not (is_dotted s)
is_clean (s ∷ t ∷ ls) = not (is "" s) && (not (is_dotted s) && is_clean (t ∷ ls))

abbrev pub checked : Bool → Option Handler → Outcome
checked let_in none = no_endpoint
checked let_in (some h) = if is_open h || let_in then handled h else unauthorized

-- The pattern "/api/" takes what no other does, and the path "/api" is redirected to it.
unfoldable pub below_root : String → Bool → List Bytes → Outcome
unfolding route is_open
below_root m let_in [] = no_pattern
below_root m let_in (a ∷ []) = if is "api" a then moved else no_pattern
below_root m let_in (a ∷ b ∷ ls) =
    if is "api" a then checked let_in (route m (b ∷ ls)) else no_pattern

unfoldable pub from_slash : (Bytes → Bytes) → String → Bool → List Bytes → Outcome
unfolding is_clean below_root
from_slash unescape m let_in [] = no_pattern
from_slash unescape m let_in (first ∷ ls) =
    if not (is "" first)
    then no_pattern
    else if not (str_eq m "CONNECT") && not (is_clean ls)
    then moved
    else below_root m let_in (map unescape ls)

unfoldable pub mux : (Bytes → Bytes) → String → Bool → Bytes → Outcome
unfolding split_at from_slash
mux unescape m let_in escaped = from_slash unescape m let_in (split_at b'/' escaped)

abbrev pub behind_guards : Verdict → Verdict → Outcome → Outcome
behind_guards rejected origin o = bad_host
behind_guards passes rejected o = bad_origin
behind_guards passes passes o = o

module _ {Addr Prefix : Type 0} (net : Net Addr Prefix) (prefixes : List Prefix) where
  -- What the chain has beside the request: `parse_url` is `url.Parse`, `unescape` is that of an element.
  pub record Front : Type 0 where
    pub rules : HostRules
    pub parse_url : String → Option Url
    pub unescape : Bytes → Bytes

  -- The verdict on a request and a session, of which `let_in` says whether it is live.
  unfoldable pub dispatch : Front → Bool → Request → Bytes → Outcome
  unfolding mux host_guard origin_guard
  dispatch f let_in r escaped =
      behind_guards (host_guard net prefixes f.rules r) (origin_guard net prefixes f.parse_url r)
        (mux f.unescape r.method let_in escaped)

  -- The same with the sessions that the manager has; the check is made only where a handler needs it.
  unfoldable pub serve : Front → Bool → ℕ → String → Manager → Request → Bytes → Outcome
  unfolding dispatch authenticated
  serve f up now token m r escaped = dispatch f (authenticated up now token m).1 r escaped
