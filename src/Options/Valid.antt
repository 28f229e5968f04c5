-- ===== src/Options/Valid.antt =====
-- The options that `validateRunnerOptions` of internal/command/options.go accepts.
use shipmunk_runner.Prelude.{
  ◌≡◌, ◌≢◌, ◌⊎◌, inl, inr, refl, subst, ap, Bool, true, false, not, ◌&&◌, Bytes, codes, bytes_eq,
  bytes_eq_iff, Option, none, some, [], ◌∷◌, Bool-cases, arith, Result, ok, err, and_then,
  and_then_ok,
}
use shipmunk_runner.Codex.Fields.{one_of}
use shipmunk_runner.Codex.Paths.{clean}
use shipmunk_runner.Options.{
  Url, RunnerOptions, OptionError, refuse_if, is_blank, is_loopback_hostname, is_secure, is_odd_url,
  check_url, base, dir, join_path, is_codex, is_split, with_repository, is_missing,
  validate_control_plane_url, validate_runner_options, missing_options,
}

-- The control plane is reached by TLS, or is this machine.
pub record UrlIsSafe (parse_url : Bytes → Option Url) (s : Bytes) : Type 0 where
  pub url : Url
  pub parsed : parse_url s ≡ some url
  pub secure :
      (url.scheme ≡ codes "https")
      ⊎ ((url.scheme ≡ codes "http") × (is_loopback_hostname url.hostname ≡ true))
  pub no_user : url.has_user ≡ false

pub record OptionsAreSafe (parse_url : Bytes → Option Url) (o out : RunnerOptions) : Type 0 where
  pub url : UrlIsSafe parse_url o.base_url
  pub driver : (o.driver ≡ codes "fixture") ⊎ (o.driver ≡ codes "codex")
  pub profiles : o.driver ≡ codes "codex" → o.profiles_dir ≢ []
  pub together :
      base o.token_file ≡ codes "execution.token"
      → (clean o.state_dir ≡ join_path (dir o.token_file) (codes "state"))
        × (o.driver ≡ codes "codex"
            → clean o.profiles_dir ≡ join_path (dir o.token_file) (codes "profiles"))
  pub session : (o.session_mode ≡ codes "fresh") ⊎ (o.session_mode ≡ codes "resume")
  pub one_mode : o.discard_attempt ≡ true → o.once ≡ false
  pub confirmed : o.confirmed ≡ true → o.discard_attempt ≡ true
  pub image : out.repository_image ≢ []

after_refusal :
    {B : Type 0} (b : Bool) (e : OptionError) (f : Unit {0} → Result OptionError B) (out : B)
    → and_then (refuse_if b e) f ≡ ok out
    → (b ≡ false) × (f tt ≡ ok out)
after_refusal true e f out h = cc h
after_refusal false e f out h = (refl, h)

same_text : (s t : Bytes) → bytes_eq s t ≡ true → s ≡ t
same_text s t = (bytes_eq_iff s t).0

one_of_two : (s a b : Bytes) → not (one_of s (a ∷ b ∷ [])) ≡ false → (s ≡ a) ⊎ (s ≡ b)
unfolding one_of
one_of_two s a b h = elim (Bool-cases (bytes_eq s a)) [
  | inl e ↦ inl (same_text s a e)
  | inr e ↦ inr (same_text s b (ground arith))
]

filled : (s : Bytes) → is_blank s ≡ false → s ≢ []
filled s h e = cc (rw e at h)

url_of :
    (parse_url : Bytes → Option Url) (s : Bytes) (o : Option Url)
    → parse_url s ≡ o
    → check_url o s ≡ ok tt
    → UrlIsSafe parse_url s
unfolding check_url is_secure
url_of parse_url s none e h = cc h
url_of parse_url s (some u) e h =
    let (odd, h1) = after_refusal (is_odd_url u s) _ _ tt h in
    let (safe, h2) = after_refusal (not (is_secure u)) _ _ tt h1 in
    record {
      url = u;
      parsed = e;
      secure = elim (Bool-cases (bytes_eq u.scheme (codes "https"))) [
        | inl t ↦ inl (same_text u.scheme (codes "https") t)
        | inr t ↦
            let plain : bytes_eq u.scheme (codes "http") ≡ true = ground arith in
            let local : is_loopback_hostname u.hostname ≡ true = ground arith in
            inr (same_text u.scheme (codes "http") plain, local)
      ];
      no_user = ground arith;
    }

installed :
    (o : RunnerOptions)
    → is_split o ≡ false
    → base o.token_file ≡ codes "execution.token"
    → (clean o.state_dir ≡ join_path (dir o.token_file) (codes "state"))
      × (o.driver ≡ codes "codex"
          → clean o.profiles_dir ≡ join_path (dir o.token_file) (codes "profiles"))
unfolding is_split
installed o h e =
    let own : bytes_eq (base o.token_file) (codes "execution.token") ≡ true =
      (bytes_eq_iff (base o.token_file) (codes "execution.token")).1 e in
    let state : bytes_eq (clean o.state_dir) (join_path (dir o.token_file) (codes "state")) ≡ true =
      ground arith in
    (
      same_text (clean o.state_dir) (join_path (dir o.token_file) (codes "state")) state,
      λ d.
          let codex : is_codex o ≡ true = (bytes_eq_iff o.driver (codes "codex")).1 d in
          let profiles : bytes_eq (clean o.profiles_dir)
                (join_path (dir o.token_file) (codes "profiles"))
              ≡ true =
            ground arith in
          same_text (clean o.profiles_dir) (join_path (dir o.token_file) (codes "profiles"))
            profiles,
    )

repository_filled :
    (o : RunnerOptions) → is_missing o ≡ false → (with_repository o).repository_image ≢ []
repository_filled o h = elim (Bool-cases (is_blank o.repository_image)) [
  | inl e ↦ rw e (filled o.image (ground arith))
  | inr e ↦ rw e (filled o.repository_image e)
]

abbrev options_or : RunnerOptions → Result OptionError RunnerOptions → RunnerOptions
options_or d (ok o) = o
options_or d (err e) = d

-- Options that are accepted reach the control plane by TLS or on this machine, and not with a user in the
-- URL. The Codex driver has a directory of profiles; an installed token has the state and the profiles
-- beside it; the confirmation comes only with discarding an attempt, and discarding never with running
-- once; the image of the repository is filled in.
pub validate_runner_options-OptionsAreSafe :
    (parse_url : Bytes → Option Url) (o out : RunnerOptions)
    → validate_runner_options parse_url o ≡ ok out
    → OptionsAreSafe parse_url o out
unfolding validate_runner_options validate_control_plane_url
validate_runner_options-OptionsAreSafe parse_url o out h =
    let (full, h1) = after_refusal (is_missing o) missing_options _ out h in
    let (u, url, h2) = and_then_ok (check_url (parse_url o.base_url) o.base_url) _ out h1 in
    let (driver, h3) =
      after_refusal (not (one_of o.driver (codes "fixture" ∷ codes "codex" ∷ []))) _ _ out h2 in
    let (profiles, h4) = after_refusal (is_codex o && is_blank o.profiles_dir) _ _ out h3 in
    let (whole, h5) = after_refusal (is_split o) _ _ out h4 in
    let (session, h6) =
      after_refusal (not (one_of o.session_mode (codes "fresh" ∷ codes "resume" ∷ []))) _ _ out
        h5 in
    let (modes, h7) = after_refusal (o.discard_attempt && o.once) _ _ out h6 in
    let (sure, h8) = after_refusal (o.confirmed && not o.discard_attempt) _ _ out h7 in
    record {
      url = url_of parse_url o.base_url (parse_url o.base_url) refl url;
      driver = one_of_two o.driver (codes "fixture") (codes "codex") driver;
      profiles = λ d.
          let codex : is_codex o ≡ true = (bytes_eq_iff o.driver (codes "codex")).1 d in
          filled o.profiles_dir (ground arith);
      together = installed o whole;
      session = one_of_two o.session_mode (codes "fresh") (codes "resume") session;
      one_mode = λ d. ground arith;
      confirmed = λ c. ground arith;
      image =
          subst (λ r. r.repository_image ≢ []) (ap (options_or o) h8) (repository_filled o full);
    }
