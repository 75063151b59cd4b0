-- ===== src/Edits.antt =====
-- node_relay/node_poller.py: the checks of `AgenticRepoExecutor` on the files that a model returns,
-- and how they are written. The clone is a parameter.
pub mod Paths
pub mod Credentials
pub mod Owners
use worker_hive_relay.Prelude.{
  ℕ, ◌+◌, suc, String, ◌<>◌, Bool, true, false, not, ◌&&◌, ◌||◌, Option, none, some, List, [], ◌∷◌,
  leb, ◌==◌, ◌=ₛ◌, str_lt, if◌then◌else◌, starts_with, ends_with, split_parts, take, clip,
}
use Prim.Native.Char.{code}
use worker_hive_relay.Exec.{
  Error, Result, ok, err, fail, Exec, pure, lift, gets, attempt, ◌>>=◌, ◌>>◌, runtime_error,
}
use worker_hive_relay.Value.{num, get_null, str, Fields}
use worker_hive_relay.Hive.{or_else}
use worker_hive_relay.Repos.{Python, text_of}
use worker_hive_relay.Branches.{sanitize_from}
use worker_hive_relay.PatchLander.{with_newline, child}
use worker_hive_relay.Git.{
  Libs, Parsed, is_set, is_member, redact_secrets, host_credentials, bare_host, on_host,
}

-- The clone: `read_text`, which may raise, and what is written; `inside` says that the parent of a
-- path resolves to a place below the clone. The other fields are the code's tests on text: the names
-- that _TOPLEVEL_DEF_RE finds, in their order, and `new < original * ratio` under the ratio of the
-- environment.
pub record Clone : Type 1 where
  pub State : Type 0
  pub is_file : String → State → Bool
  pub is_symlink : String → State → Bool
  pub inside : String → State → Bool
  pub read_text : String → State → Result String
  pub unlink_missing_ok : String → Exec State (Unit {0})
  pub make_parent : String → Exec State (Unit {0})
  pub write_text : String → String → Exec State (Unit {0})
  pub toplevel_names : String → List String
  pub is_truncated : (new original : ℕ) → Bool

-- `{path: new content, or None to delete}`, in the order of the dictionary.
abbrev pub Changes : Type 0
Changes = List (String × Option String)

-- `text.count("\n") or 1`
unfoldable pub newlines : String → ℕ
newlines String.[] = 0
newlines (String.◌∷◌ c s) = let rest = newlines s in if code c == 10 then suc rest else rest

abbrev pub line_count : String → ℕ
line_count text = if newlines text == 0 then 1 else newlines text

-- `Path(rel).parts`, but for the root of an absolute path: empty parts and "." are no parts.
unfoldable pub real_parts : List String → List String
real_parts [] = []
real_parts (p ∷ ps) = let rest = real_parts ps in if (p =ₛ "") || (p =ₛ ".") then rest else p ∷ rest

abbrev pub path_parts : String → List String
path_parts rel = let (part, parts) = split_parts b'/' rel in real_parts (part ∷ parts)

-- The first test of `_write_file_changes`.
unfoldable pub is_unsafe : String → Bool
unfolding real_parts split_parts
is_unsafe rel =
    starts_with rel "/"
    || starts_with rel "~"
    || is_member ".." (path_parts rel)
    || starts_with rel ".git/"

-- `sorted(set)` on texts.
unfoldable pub insert_name : String → List String → List String
insert_name n [] = n ∷ []
insert_name n (m ∷ ms) =
    let rest = insert_name n ms in
    if n =ₛ m then m ∷ ms else if str_lt n m then n ∷ (m ∷ ms) else m ∷ rest

-- `sorted(old - new)`
unfoldable pub missing_names : (old new : List String) → List String
unfolding insert_name
missing_names [] new = []
missing_names (n ∷ ns) new =
    let rest = missing_names ns new in if is_member n new then rest else insert_name n rest

unfoldable pub join_names : List String → String
join_names [] = ""
join_names (n ∷ []) = n
join_names (n ∷ m ∷ ns) = n <> (", " <> join_names (m ∷ ns))

module _ (py : Python) (clone : Clone) where
  abbrev pub with_line : Option String → List String → List String
  with_line none out = out
  with_line (some line) out = line ∷ out

  -- One file of `_truncation_violations`.
  abbrev pub truncated_lines : (rel body : String) → Result String → Option String
  truncated_lines rel body (err e) = none
  truncated_lines rel body (ok original) =
      if leb 40 (line_count original) && clone.is_truncated (line_count body) (line_count original)
      then some (
          rel
          <> (" (original "
              <> (py.show (num (line_count original))
                  <> (" lines, you returned " <> (py.show (num (line_count body)) <> ")")))))
      else none

  abbrev pub truncated : clone.State → String → Option String → Option String
  truncated s rel none = none
  truncated s rel (some body) =
      if clone.is_file rel s then truncated_lines rel body (clone.read_text rel s) else none

  -- `_truncation_violations(clone_dir, changes)`
  unfoldable pub truncation_violations : Changes → clone.State → List String
  unfolding newlines
  truncation_violations [] s = []
  truncation_violations ((rel, body) ∷ more) s =
      with_line (truncated s rel body) (truncation_violations more s)

  -- One file of `_dropped_symbols`.
  abbrev pub dropped_from : (rel body : String) → Result String → Option String
  dropped_from rel body (err e) = none
  dropped_from rel body (ok original) =
      elim (missing_names (clone.toplevel_names original) (clone.toplevel_names body)) [
        | [] ↦ none
        | n ∷ ns ↦ some (rel <> (": " <> join_names (take 6 (n ∷ ns))))
      ]

  abbrev pub dropped : clone.State → String → Option String → Option String
  dropped s rel none = none
  dropped s rel (some body) =
      if ends_with rel ".py" && clone.is_file rel s
      then dropped_from rel body (clone.read_text rel s)
      else none

  -- `_dropped_symbols(clone_dir, changes)`
  unfoldable pub dropped_symbols : Changes → clone.State → List String
  unfolding missing_names join_names
  dropped_symbols [] s = []
  dropped_symbols ((rel, body) ∷ more) s = with_line (dropped s rel body) (dropped_symbols more s)

module _ (clone : Clone) where
  -- One file that passed the tests; true if it is a link and is not written.
  abbrev pub write_body : String → String → Bool → Exec clone.State Bool
  write_body rel body true = pure true
  write_body rel body false = do
    clone.make_parent rel
    clone.write_text rel (with_newline body)
    pure false

  abbrev pub write_change : String → Option String → Exec clone.State Bool
  write_change rel none = do clone.unlink_missing_ok rel; pure false
  write_change rel (some body) = do link ← gets (clone.is_symlink rel); write_body rel body link

  -- The tests on a path, and the write; true if the path is rejected.
  abbrev pub write_inside : String → Option String → Bool → Exec clone.State Bool
  write_inside rel body false = pure true
  write_inside rel body true = write_change rel body

  unfoldable pub write_one : String → Option String → Exec clone.State Bool
  unfolding is_unsafe
  write_one rel body =
      if is_unsafe rel
      then pure true
      else do below ← gets (clone.inside rel); write_inside rel body below

  -- `_write_file_changes(clone_dir, changes)`: the rejected paths.
  unfoldable pub write_file_changes : Changes → Exec clone.State (List String)
  unfolding write_one
  write_file_changes [] = pure []
  write_file_changes ((rel, body) ∷ more) = do
    rejected ← write_one rel body
    rest ← write_file_changes more
    pure (if rejected then rel ∷ rest else rest)

-- `_job_id_short(job)`
unfoldable pub job_id_short : Python → Fields → String
unfolding sanitize_from
job_id_short py job =
    let raw =
      text_of py (or_else (get_null "job_id" job) (or_else (get_null "id" job) (str "manual"))) in
    let short = clip (sanitize_from false raw) 12 in if short =ₛ "" then "manual" else short
