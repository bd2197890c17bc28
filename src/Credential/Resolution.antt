-- ===== src/Credential/Resolution.antt =====
-- internal/cred/resolver.go: what IBMCloudAPIKey promises of its answer, whatever its sources hold.
use roksbnkctl.Prelude.{
  ◌≡◌, ◌≢◌, inl, inr, true, some, List, [], ◌∷◌, arith, Text, empty, ◌==◌, ==_iff, trim_space,
  Bool-cases, Option-cases,
}
use roksbnkctl.Credential.{
  Resolver, World, Answer, Failure, key, failure, first_set, api_key_env_vars, api_key_from_env,
  api_key_from_keychain, api_key_from_config, api_key_from_prompt, required, usable, stored_key,
  ibm_cloud_api_key, keychain_miss, config_miss,
}

-- A resolver that is not interactive asks the user nothing and stores nothing.
pub ibm_cloud_api_key-silent :
    (world : World) (r : Resolver) → r.non_interactive ≡ true → (ibm_cloud_api_key world r).1 ≡ []
unfolding ibm_cloud_api_key
ibm_cloud_api_key-silent world r quiet = ground arith

first_set-ne :
    (world : World) (vars : List Text) (k : Text) → first_set world vars ≡ some k → k ≢ empty
unfolding first_set
first_set-ne world [] k h e = ground arith
first_set-ne world (v ∷ vars) k h e = elim (Bool-cases (world.env v == empty)) [
  | inl unset ↦ first_set-ne world vars k (ground arith) e
  | inr set ↦ ground (arith, ==_iff (world.env v) empty)
]

required-ne : (miss : Failure) (a : Answer) (k : Text) → required miss a ≡ key k → k ≢ empty
unfolding required
required-ne miss (failure f) k h e = ground arith
required-ne miss (key j) k h e = ground (arith, ==_iff j empty)

usable-ne : (a : Answer) (k : Text) → usable a ≡ some k → k ≢ empty
unfolding usable
usable-ne (failure f) k h e = ground arith
usable-ne (key j) k h e = ground (arith, ==_iff j empty)

api_key_from_prompt-ne :
    (world : World) (workspace k : Text)
    → (api_key_from_prompt world workspace).0 ≡ key k
    → k ≢ empty
unfolding api_key_from_prompt
api_key_from_prompt-ne world workspace k h e = elim (Option-cases world.password) [
  | inl closed ↦ ground arith
  | inr (line, read) ↦ ground (arith, ==_iff (trim_space line) empty)
]

stored_key-ne :
    (world : World) (workspace k : Text) → stored_key world workspace ≡ some k → k ≢ empty
unfolding stored_key api_key_from_env
stored_key-ne world workspace k h =
    let from_keychain = usable (api_key_from_keychain world workspace) in
    let from_config = usable (api_key_from_config world workspace) in
    elim (Option-cases (first_set world api_key_env_vars)) [
      | inr (j, set) ↦ first_set-ne world api_key_env_vars k (ground arith)
      | inl unset ↦ elim (Option-cases from_keychain) [
        | inr (j, kept) ↦ usable-ne (api_key_from_keychain world workspace) k (ground arith)
        | inl absent ↦ usable-ne (api_key_from_config world workspace) k (ground arith)
      ]
    ]

-- A key that IBMCloudAPIKey returns is not the empty string, whichever source it came from.
pub ibm_cloud_api_key-ne-empty :
    (world : World) (r : Resolver) (k : Text) → (ibm_cloud_api_key world r).0 ≡ key k → k ≢ empty
unfolding ibm_cloud_api_key api_key_from_env
ibm_cloud_api_key-ne-empty world r k h e = ground (
  arith,
  stored_key-ne world r.workspace k,
  first_set-ne world api_key_env_vars k,
  required-ne (keychain_miss r.workspace) (api_key_from_keychain world r.workspace) k,
  required-ne (config_miss r.workspace) (api_key_from_config world r.workspace) k,
  api_key_from_prompt-ne world r.workspace k,
)
