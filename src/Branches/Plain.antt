-- ===== src/Branches/Plain.antt =====
-- Which characters a review branch of node_relay/lander.py can hold.
use worker_hive_relay.Prelude.{
  String, ◌<>◌, ◌≡◌, refl, Bool, true, false, ◌&&◌, arith, ◌==◌, ◌=ₛ◌, if◌then◌else◌, left_trim,
  right_trim, len,
}
use Prim.Native.Char.{Char, code}
use text.Mathlib.TextLemmas
use worker_hive_relay.Exec.{ok, fail, permanent_landing}
use worker_hive_relay.Git.{Libs}
use worker_hive_relay.Branches.{
  is_plain, sanitize_from, sanitize, digest, branch_name, branch_for_job,
}

-- Every character is in [A-Za-z0-9._-].
unfoldable pub all_plain : String → Bool
all_plain String.[] = true
all_plain (String.◌∷◌ c s) = is_plain (code c) && all_plain s

pub record IsPlain (s : String) : Type 0 where
  pub plain : all_plain s ≡ true

-- What the code relies on of a hexadecimal digest.
pub record IsDigest (libs : Libs) : Type 0 where
  pub len-digest : (text : String) → len (digest libs 8 text) ≡ 8
  pub digest-IsPlain : (text : String) → IsPlain (digest libs 8 text)

all_plain-append :
    (s t : String) → all_plain s ≡ true → all_plain t ≡ true → all_plain (s <> t) ≡ true
unfolding all_plain
all_plain-append String.[] t h k = rw (TextLemmas.nil-append t) k
all_plain-append (String.◌∷◌ c s) t h k =
    rw (TextLemmas.cons-append c s t) (ground (arith, all_plain-append s t))

dash_plain : all_plain "-" ≡ true
unfolding all_plain is_plain
dash_plain = refl

nil_plain : all_plain "" ≡ true
unfolding all_plain
nil_plain = refl

all_plain-if :
    (b : Bool) (s t : String)
    → all_plain s ≡ true
    → all_plain t ≡ true
    → all_plain (if b then s else t) ≡ true
all_plain-if true s t h k = h
all_plain-if false s t h k = k

plain_step :
    (c : Char) (s t : String)
    → all_plain s ≡ true
    → all_plain t ≡ true
    → all_plain (if is_plain (code c) then String.◌∷◌ c s else t) ≡ true
unfolding all_plain
plain_step c s t h k = go (is_plain (code c)) refl
  where
    go : (b : Bool) → is_plain (code c) ≡ b → all_plain (if b then String.◌∷◌ c s else t) ≡ true
    go true e = rw (e, h) refl
    go false e = k

all_plain-sanitize_from : (inside : Bool) (s : String) → all_plain (sanitize_from inside s) ≡ true
unfolding sanitize_from
all_plain-sanitize_from inside String.[] = nil_plain
all_plain-sanitize_from inside (String.◌∷◌ c s) =
    let others = all_plain-sanitize_from true s in
    plain_step c (sanitize_from false s) _ (all_plain-sanitize_from false s) (
      all_plain-if inside _ _ others
        (all_plain-append "-" (sanitize_from true s) dash_plain others))

tail_plain : (c : Char) (s : String) → all_plain (String.◌∷◌ c s) ≡ true → all_plain s ≡ true
unfolding all_plain
tail_plain c s h = ground arith

cons_plain :
    (c : Char) (s t : String)
    → all_plain (String.◌∷◌ c s) ≡ true
    → all_plain t ≡ true
    → all_plain (String.◌∷◌ c t) ≡ true
unfolding all_plain
cons_plain c s t h k = ground arith

all_plain-left_trim : (s : String) → all_plain s ≡ true → all_plain (left_trim b'-' s) ≡ true
unfolding left_trim
all_plain-left_trim String.[] h = nil_plain
all_plain-left_trim (String.◌∷◌ c s) h =
    all_plain-if (code c == b'-') _ _ (all_plain-left_trim s (tail_plain c s h)) h

all_plain-right_trim : (s : String) → all_plain s ≡ true → all_plain (right_trim b'-' s) ≡ true
unfolding right_trim
all_plain-right_trim String.[] h = nil_plain
all_plain-right_trim (String.◌∷◌ c s) h =
    all_plain-if _ _ _ nil_plain
      (cons_plain c s (right_trim b'-' s) h (all_plain-right_trim s (tail_plain c s h)))

all_plain-sanitize : (s : String) → all_plain (sanitize s) ≡ true
unfolding sanitize
all_plain-sanitize s =
    all_plain-right_trim _ (all_plain-left_trim _ (all_plain-sanitize_from false s))

pub name_of_branch :
    (libs : Libs) (raw name : String)
    → branch_for_job libs raw ≡ ok name
    → name ≡ branch_name libs raw (sanitize raw)
unfolding branch_for_job
name_of_branch libs raw name h = go (sanitize raw =ₛ "") h
  where
    go :
        (b : Bool)
        → (if b
            then fail permanent_landing "unusable job id"
            else ok (branch_name libs raw (sanitize raw)))
          ≡ ok name
        → name ≡ branch_name libs raw (sanitize raw)
    go true e = absurd (cc e)
    go false e = cc e

module _ (libs : Libs) (D : IsDigest libs) where
  all_plain-branch :
      (raw : String) (b : Bool)
      → all_plain (if b then sanitize raw else sanitize raw <> ("-" <> digest libs 8 raw)) ≡ true
  all_plain-branch raw true = all_plain-sanitize raw
  all_plain-branch raw false =
      all_plain-append (sanitize raw) ("-" <> digest libs 8 raw) (all_plain-sanitize raw)
        (all_plain-append "-" (digest libs 8 raw) dash_plain (D.digest-IsPlain raw).plain)

  -- A review branch is spelled safely: where the digests are eight hexadecimal characters, every
  -- branch name is "hive/node-" and a rest in which all characters are in [A-Za-z0-9._-].
  pub branch_for_job-IsPlain :
      (raw name : String)
      → branch_for_job libs raw ≡ ok name
      → (rest : String) × (name ≡ "hive/node-" <> rest) × IsPlain rest
  branch_for_job-IsPlain raw name h = (
    if sanitize raw =ₛ raw then sanitize raw else sanitize raw <> ("-" <> digest libs 8 raw),
    name_of_branch libs raw name h,
    record { plain = all_plain-branch raw (sanitize raw =ₛ raw) },
  )
