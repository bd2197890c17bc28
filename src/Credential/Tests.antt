-- ===== src/Credential/Tests.antt =====
-- Runs of the resolver, and its theorems at a concrete environment.
use roksbnkctl.Prelude.{
  ◌≡◌, ◌≢◌, refl, true, false, none, some, [], ◌∷◌, if◌then◌else◌, lit, empty, ◌==◌, trim_space,
  to_lower, has_prefix,
}
use roksbnkctl.Credential.{
  Resolver, World, not_found, failed, key, failure, asked_key, asked_to_save, saved,
  non_interactive_miss, keychain_service, first_set, api_key_env_vars, api_key_from_env,
  api_key_from_keychain, api_key_from_config, api_key_from_prompt, required, usable, stored_key,
  ibm_cloud_api_key,
}
use roksbnkctl.Credential.Resolution.{ibm_cloud_api_key-silent, ibm_cloud_api_key-ne-empty}

resolver : Unit {0}
unfolding lit ◌==◌ trim_space to_lower has_prefix keychain_service first_set api_key_env_vars
    api_key_from_env api_key_from_keychain api_key_from_config api_key_from_prompt required usable
    stored_key ibm_cloud_api_key
resolver = tt

abbrev bare : World
bare = record {
  env = λ v. empty;
  keychain = λ service user. failed;
  api_key_b64 = λ workspace. not_found;
  decode = λ s. none;
  is_terminal = true;
  password = some (lit " typed ");
  reply = lit "Yes";
}

abbrev exported : World
exported = record bare { env = λ v. if v == lit "IC_API_KEY" then lit "k1" else empty }

abbrev dev : Resolver
dev = record { workspace = lit "dev"; non_interactive = false; source = empty }

abbrev batch : Resolver
batch = record dev { non_interactive = true }

resolver_tests :
    (ibm_cloud_api_key exported dev ≡ (key (lit "k1"), []))
    × (ibm_cloud_api_key bare dev ≡ (
      key (lit "typed"),
      asked_key (lit "dev") ∷ asked_to_save ∷ saved (lit "dev") (lit "typed") ∷ [],
    ))
    × (ibm_cloud_api_key bare batch ≡ (failure (non_interactive_miss (lit "dev")), []))
unfolding resolver
resolver_tests = (refl, refl, refl)

ibm_cloud_api_key-silent_example : (ibm_cloud_api_key bare batch).1 ≡ []
ibm_cloud_api_key-silent_example = ibm_cloud_api_key-silent bare batch refl

typed : (ibm_cloud_api_key bare dev).0 ≡ key (lit "typed")
unfolding resolver
typed = refl

ibm_cloud_api_key-ne-empty_example : lit "typed" ≢ empty
ibm_cloud_api_key-ne-empty_example = ibm_cloud_api_key-ne-empty bare dev (lit "typed") typed

environment_first : ibm_cloud_api_key exported dev ≡ (key (lit "k1"), [])
unfolding resolver
environment_first = refl
