-- ===== src/Tests/Options.antt =====
-- The options of the command at concrete inputs.
use shipmunk_runner.Prelude.{
  codes, bytes_eq, true, false, ◌≡◌, refl, some, Bytes, Option, [], ok, err,
}
use shipmunk_runner.Options.{
  Url, RunnerOptions, insecure_url, split_installation, validate_runner_options,
}
use shipmunk_runner.Options.Valid.{OptionsAreSafe, validate_runner_options-OptionsAreSafe}

abbrev local_url : Bytes → Option Url
local_url s = some (record {
  scheme = codes "http";
  host = codes "LOCALHOST:80";
  hostname = codes "LOCALHOST";
  raw_query = [];
  fragment = [];
  opaque = [];
  has_user = false;
  force_query = false;
})

abbrev remote_url : Bytes → Option Url
remote_url s = some (record {
  scheme = codes "http";
  host = codes "a.b";
  hostname = codes "a.b";
  raw_query = [];
  fragment = [];
  opaque = [];
  has_user = false;
  force_query = false;
})

abbrev given : RunnerOptions
given = record {
  base_url = codes "http://LOCALHOST:80";
  token_file = codes "/r//execution.token";
  state_dir = codes "/r/state/";
  image = codes "i";
  once = true;
  driver = codes "codex";
  profiles_dir = codes "/r/profiles";
  repository_image = [];
  session_mode = codes "fresh";
  discard_attempt = false;
  confirmed = false;
}

abbrev accepted : RunnerOptions
accepted = record given { repository_image = codes "i" }

accepted_test : validate_runner_options local_url given ≡ ok accepted
unfolding validate_runner_options bytes_eq
accepted_test = refl

insecure_test : validate_runner_options remote_url given ≡ err insecure_url
unfolding validate_runner_options bytes_eq
insecure_test = refl

elsewhere_test :
    validate_runner_options local_url (record given { state_dir = codes "/s" })
    ≡ err split_installation
unfolding validate_runner_options bytes_eq
elsewhere_test = refl

validate_runner_options-OptionsAreSafe_example : OptionsAreSafe local_url given accepted
validate_runner_options-OptionsAreSafe_example =
    validate_runner_options-OptionsAreSafe local_url given accepted accepted_test
