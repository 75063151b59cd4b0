-- ===== src/Tests/Lander.antt =====
-- The patch lander at concrete payloads, over a git that answers every command.
use worker_hive_relay.Prelude.{
  All, ℕ, suc, ◌%◌, String, ◌<>◌, ◌≡◌, ◌≢◌, ◌↔◌, ◌⊎◌, refl, sym, ◌∙◌, ap, Bool, true, false, none,
  some, List, [], ◌∷◌, ◌++◌, Bytes, length, ◌=ₛ◌, ◌==◌, if◌then◌else◌, len, strip, utf8, utf8_char,
  split_parts, split_once, split_last, lower, left_trim, right_trim,
}
use worker_hive_relay.Env.{Env, env_of}
use worker_hive_relay.Exec.{ok, fail, value_error, permanent_landing}
use worker_hive_relay.Value.{pos, str, obj, Fields, empty, field, get, get_null}
use worker_hive_relay.Crypto.{version, magic_bytes, aad_for, aad_with_magic, open_blob}
use worker_hive_relay.Backend.Memory.{memory, memory-IsLawful, lookup}
use worker_hive_relay.Client.{World, terminal, key_of}
use worker_hive_relay.Client.Objects.{object}
use worker_hive_relay.Hive.{Bridge}
use worker_hive_relay.Reconciler.{reconcile_one}
use worker_hive_relay.Git.{
  Completed, System, Libs, credentials_for, nonempty_parts, owner_listed, owner_allowed, run_git,
  git,
}
use worker_hive_relay.Git.Recorded.{recorded}
use worker_hive_relay.Branches.{
  is_plain, sanitize_from, sanitize, branch_for_job, repo_cache_name, stem, lock_name, tmp_name,
}
use worker_hive_relay.Branches.Plain.{all_plain, IsPlain, IsDigest, branch_for_job-IsPlain}
use worker_hive_relay.Branches.Collision.{Alike, branch_for_job_collision}
use worker_hive_relay.Branches.Locks.{lock_name-tmp_name}
use worker_hive_relay.PatchLander.{PatchLander, Order, admit}
use worker_hive_relay.PatchLander.Land.{
  land, land_locked, land_order, land_anew, ls_remote_branch, landed, pristine_clone, apply_patch,
  push_branch,
}
use worker_hive_relay.PatchLander.Cache.{
  ensure_clone, fresh_clone, prune_cache, candidates, evict, tree_size, default_branch,
}
use worker_hive_relay.PatchLander.Admission.{Admitted, repo_of}
use worker_hive_relay.PatchLander.Refusals.{land-Admitted, admit_refusal}
use worker_hive_relay.PatchLander.Wedged.{lander_on, unparsed_url_wedges}
use worker_hive_relay.PatchLander.Commands.{Planned}
use worker_hive_relay.PatchLander.LandPlan.{land-Planned}
use worker_hive_relay.PatchLander.Listing.{lacks}
use worker_hive_relay.PatchLander.Outcome.{land_reuses}
use worker_hive_relay.Tests.{host, codec, key, nonce, bus, bridge, world, dumps, loads}
use worker_hive_relay.Tests.Repos.{python}

abbrev env : Env
env name = if name =ₛ "GITHUB_TOKEN" then some "t0k" else none

abbrev pub url : String
url = "https://github.com/ncz-os/x.git"

-- One URL parses; a digest is one of two texts.
abbrev pub libs : Libs
libs = record {
  env = env;
  py = python;
  repr = λ s. s;
  urlparse = λ s.
      if s =ₛ url
      then ok (record {
        scheme = "https";
        username = none;
        password = none;
        hostname = some "github.com";
        path = "/ncz-os/x.git";
      })
      else fail value_error "Invalid IPv6 URL";
  sha256_hex = λ b. if length b % 2 == 0 then "0123456789abcdef" else "fedcba9876543210";
  home = "/home/relay";
  parse_int = λ s. ok (pos 1);
  parse_float = λ s. ok 300;
}

even_or_odd :
    (b : Bool)
    → let d = Prim.Native.String.slice (if b then "0123456789abcdef" else "fedcba9876543210") 0 8 in
      (len d ≡ 8) × (all_plain d ≡ true)
unfolding all_plain is_plain
even_or_odd true = (refl, refl)
even_or_odd false = (refl, refl)

digests : IsDigest libs
digests = record {
  len-digest = λ text. (even_or_odd (length (utf8 text) % 2 == 0)).0;
  digest-IsPlain = λ text. record { plain = (even_or_odd (length (utf8 text) % 2 == 0)).1 };
}

branch_of_ab : branch_for_job libs "a/b" ≡ ok "hive/node-a-b-fedcba98"
unfolding branch_for_job sanitize sanitize_from is_plain left_trim right_trim utf8 utf8_char
branch_of_ab = refl

branch_for_job-IsPlain_example :
    (rest : String) × ("hive/node-a-b-fedcba98" ≡ "hive/node-" <> rest) × IsPlain rest
branch_for_job-IsPlain_example =
    branch_for_job-IsPlain libs digests "a/b" "hive/node-a-b-fedcba98" branch_of_ab

-- A job that is spelled as the branch of another one.
branch_of_spelled : branch_for_job libs "a-b-fedcba98" ≡ ok "hive/node-a-b-fedcba98"
unfolding branch_for_job sanitize sanitize_from is_plain left_trim right_trim utf8 utf8_char
branch_of_spelled = refl

branch_for_job_collision_example : Alike libs digests "a/b" "a-b-fedcba98"
branch_for_job_collision_example =
    branch_for_job_collision libs digests "a/b" "a-b-fedcba98" "hive/node-a-b-fedcba98" branch_of_ab
      branch_of_spelled

some_name : Path String "ncz-os-x.git-0123456789abcdef" "" → ⊥
some_name e = absurd (let clash : false ≡ true = ap (λ x. x =ₛ "") e in cc clash)

lock_name-tmp_name_example :
    (lock_name (tmp_name "ncz-os-x.git-0123456789abcdef")
      ≡ lock_name "ncz-os-x.git-0123456789abcdef")
    ↔ (stem "ncz-os-x.git-0123456789abcdef" ≡ "ncz-os-x.git-0123456789abcdef")
lock_name-tmp_name_example = lock_name-tmp_name "ncz-os-x.git-0123456789abcdef" some_name

-- Every command succeeds; `ls-remote` prints `remote`, the others print "abc". The state counts
-- the actions.
abbrev answer : String → List String → Completed
answer remote [] = record { returncode = 0; stdout = "abc"; stderr = "" }
answer remote (verb ∷ _) = record {
  returncode = 0;
  stdout = if verb =ₛ "ls-remote" then remote else "abc";
  stderr = "";
}

abbrev system : String → System
system remote = record {
  State = ℕ;
  run = λ c n. (ok (some (answer remote c.args)), suc n);
  is_dir = λ p n. false;
  exists = λ p n. false;
  iterdir = λ p n. (ok [], suc n);
  walk = λ p n. (ok [], suc n);
  file_size = λ p n. (ok none, suc n);
  mtime = λ p n. (ok 0, suc n);
  rmtree = λ p n. (ok tt, suc n);
  rename = λ p q n. (ok tt, suc n);
  utime = λ p n. (ok tt, suc n);
  unlink_missing_ok = λ p n. (ok tt, suc n);
  unlink = λ p n. (ok tt, suc n);
  write_temp = λ text n. (ok "/tmp/x.patch", suc n);
  write_private = λ p text n. (ok true, suc n);
  lock = λ p n. (ok tt, suc n);
  try_lock = λ p n. (ok true, suc n);
  unlock = λ p n. (ok tt, suc n);
  mkdir = λ p n. (ok tt, suc n);
  chmod = λ p m n. (ok tt, suc n);
  write_text = λ p text n. (ok tt, suc n);
}

abbrev self : PatchLander
self = record {
  cache_dir = "/cache";
  orphan_dir = "/cache/orphans";
  askpass = "/cache/askpass.sh";
  git_timeout = 300;
  cache_max_bytes = 1000;
}

abbrev payload : Fields
payload = field "patch" (str "diff") (field "repo" (str url) empty)

abbrev order : Order
order = record {
  patch = "diff";
  repo_url = url;
  username = "x-access-token";
  token = "t0k";
  branch = "hive/node-j1";
}

admitted : admit libs payload "j1" ≡ ok order
unfolding admit get strip credentials_for nonempty_parts split_parts owner_allowed owner_listed
    env_of branch_for_job sanitize sanitize_from is_plain left_trim right_trim lower
admitted = refl

abbrev name : String
name = "ncz-os-x.git-fedcba9876543210"

named : repo_cache_name libs url ≡ ok name
unfolding repo_cache_name sanitize_from is_plain left_trim right_trim utf8 utf8_char
named = refl

lands :
    land libs (system "") self payload "j1" 0 ≡ (ok (landed libs (system "") self order "abc"), 20)
unfolding land admit get strip credentials_for nonempty_parts split_parts owner_allowed owner_listed
    env_of branch_for_job sanitize sanitize_from is_plain left_trim right_trim utf8 utf8_char
    repo_cache_name lock_name stem split_last land_locked land_order land_anew ls_remote_branch
    pristine_clone apply_patch push_branch ensure_clone fresh_clone prune_cache candidates evict
    tree_size default_branch split_once run_git git lower
lands = refl

moved : (land libs (system "") self payload "j1" 0).1 ≢ 0
moved e =
    absurd (let clash : false ≡ true = ap (λ n. n == 0) (sym (ap (λ x. x.1) lands) ∙ e) in cc clash)

land-Admitted_example : (o : Order) × Admitted libs payload "j1" o
land-Admitted_example = land-Admitted libs (system "") self payload "j1" 0 moved

land-Planned_example :
    All
      (Planned libs (system "") self order)
      (land libs (recorded (system "")) self payload "j1" ([], 0)).1.0
land-Planned_example = land-Planned libs (system "") self payload "j1" order 0 admitted

abbrev listing : String
listing = "c0ffee" <> ("\t" <> "refs/heads/hive/node-j1")

prints_commit : strip listing ≡ listing
unfolding strip
prints_commit = refl

some_commit : Path String "c0ffee" "" → ⊥
some_commit e = absurd (let clash : false ≡ true = ap (λ x. x =ₛ "") e in cc clash)

no_tab : lacks b'\t' "c0ffee" ≡ true
unfolding lacks
no_tab = refl

land_reuses_example : land libs (system listing) self payload "j1" 0 ≡ (
  ok (
      field "landed_branch"
        (str "hive/node-j1")
        (field "landed_repo" (str url) (field "landed_sha" (str "c0ffee") empty))),
  3,
)
land_reuses_example =
    land_reuses libs (system listing) self payload "j1" order name "c0ffee"
      "refs/heads/hive/node-j1" (record { returncode = 0; stdout = listing; stderr = "" }) 0 1 2 3
      admitted named refl refl refl prints_commit some_commit no_tab refl

-- A review whose URL cannot be parsed.
abbrev wedging : Fields
wedging =
    field "status" (str "needs-review")
      (field "patch" (str "diff") (field "repo" (str "https://[x") empty))

refused : admit libs wedging "j" ≡ fail value_error "Invalid IPv6 URL"
unfolding admit get strip
refused = refl

admit_refusal_example :
    (value_error ≡ permanent_landing)
    ⊎ (libs.urlparse (repo_of libs wedging) ≡ fail value_error "Invalid IPv6 URL")
admit_refusal_example =
    admit_refusal libs "j" wedging (record { kind = value_error; message = "Invalid IPv6 URL" })
      refused

abbrev wedging_blob : Bytes
wedging_blob =
    let aad = aad_with_magic magic_bytes (some (aad_for "terminal" "j")) in
    magic_bytes ++ (version ∷ (nonce ++ (length aad ∷ (aad ++ dumps wedging))))

abbrev to_wedge : World memory (Bridge (bus 200))
to_wedge = world ((key_of terminal "j", wedging_blob, 1) ∷ []) (bridge 200)

wedging_stands : object memory-IsLawful to_wedge terminal "j" ≡ some (wedging_blob, 1)
unfolding memory-IsLawful lookup key_of
wedging_stands = refl

wedging_opens : open_blob codec wedging_blob key (some (aad_for "terminal" "j")) ≡ ok (obj wedging)
unfolding open_blob aad_for aad_with_magic dumps loads utf8 utf8_char
wedging_opens = refl

wedging_status : get_null "status" wedging ≡ str "needs-review"
unfolding get
wedging_status = refl

wedging_patch : get_null "patch" wedging ≡ str "diff"
unfolding get
wedging_patch = refl

not_blank : (strip "diff" =ₛ "") ≡ false
unfolding strip
not_blank = refl

has_repo : (repo_of libs wedging =ₛ "") ≡ false
unfolding strip get
has_repo = refl

unparsed : libs.urlparse (repo_of libs wedging) ≡ fail value_error "Invalid IPv6 URL"
unfolding strip get
unparsed = refl

unparsed_url_wedges_example :
    reconcile_one host key (lander_on libs (system "") self 0 (λ payload uuid. none)) "j" to_wedge
    ≡ (fail value_error "Invalid IPv6 URL", to_wedge)
unparsed_url_wedges_example =
    unparsed_url_wedges libs (system "") self host key memory-IsLawful "j" wedging_blob 1 wedging
      "diff" "Invalid IPv6 URL" 0 (λ payload uuid. none) to_wedge wedging_stands wedging_opens
      wedging_status wedging_patch not_blank has_repo unparsed
