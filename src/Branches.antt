-- ===== src/Branches.antt =====
-- Names that node_relay/lander.py makes: the review branch of a job, and the paths in the cache.
pub mod Plain
pub mod Collision
pub mod Locks
use worker_hive_relay.Prelude.{
  String, ◌<>◌, Bool, true, false, ◌&&◌, ◌||◌, none, some, leb, ◌==◌, ◌=ₛ◌, if◌then◌else◌, clip,
  utf8, left_trim, right_trim, split_last, ℕ,
}
use Prim.Native.Char.{code}
use worker_hive_relay.Exec.{Result, ok, err, fail, permanent_landing}
use worker_hive_relay.Git.{Libs, Parsed}

-- The class [A-Za-z0-9._-].
unfoldable pub is_plain : ℕ → Bool
is_plain c =
    (leb 65 c && leb c 90)
    || (leb 97 c && leb c 122)
    || (leb 48 c && leb c 57)
    || c == 46
    || c == 95
    || c == 45

-- `re.sub(r"[^A-Za-z0-9._-]+", "-", text)`; `inside` says that the text goes on inside a run of
-- other characters, whose dash stands already.
unfoldable pub sanitize_from : (inside : Bool) → String → String
unfolding is_plain
sanitize_from inside String.[] = ""
sanitize_from inside (String.◌∷◌ c s) =
    let plain_rest = sanitize_from false s in
    let other_rest = sanitize_from true s in
    if is_plain (code c)
    then String.◌∷◌ c plain_rest
    else if inside
    then other_rest
    else "-" <> other_rest

unfoldable pub sanitize : String → String
unfolding sanitize_from left_trim right_trim
sanitize text = right_trim b'-' (left_trim b'-' (sanitize_from false text))

module _ (libs : Libs) where
  -- `sha256(text.encode()).hexdigest()[:n]`
  abbrev pub digest : ℕ → String → String
  digest n text = clip (libs.sha256_hex (utf8 text)) n

  abbrev pub branch_name : (raw safe : String) → String
  branch_name raw safe =
      "hive/node-" <> (if safe =ₛ raw then safe else safe <> ("-" <> digest 8 raw))

  -- `_branch_for_job(job_id)`
  unfoldable pub branch_for_job : String → Result String
  unfolding sanitize
  branch_for_job raw =
      if sanitize raw =ₛ ""
      then fail permanent_landing "unusable job id"
      else ok (branch_name raw (sanitize raw))

  -- `_repo_cache_path(repo_url)`, as its name in the cache directory.
  abbrev pub cache_name_of : String → Result Parsed → Result String
  cache_name_of repo_url (err e) = err e
  cache_name_of repo_url (ok parsed) = ok (
      clip (sanitize_from false (right_trim b'/' (left_trim b'/' parsed.path))) 48
      <> ("-" <> digest 16 repo_url))

  unfoldable pub repo_cache_name : String → Result String
  unfolding sanitize_from left_trim right_trim
  repo_cache_name repo_url = cache_name_of repo_url (libs.urlparse repo_url)

-- The name of a path without its suffix, as pathlib reads it: a suffix begins at the last dot, and
-- neither begins nor ends the name.
unfoldable pub stem : String → String
unfolding split_last
stem name = elim (split_last b'.' name) [
  | none ↦ name
  | some (before, rest) ↦ if (before =ₛ "") || (rest =ₛ "") then name else before
]

-- `path.with_suffix(".lock")` and `clone.with_name(clone.name + ".tmp")`, on names.
unfoldable pub lock_name : String → String
unfolding stem
lock_name name = stem name <> ".lock"

abbrev pub tmp_name : String → String
tmp_name name = name <> ".tmp"
