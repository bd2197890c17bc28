-- ===== src/Credential.antt =====
-- internal/cred/resolver.go: where the IBM Cloud API key comes from, and when the user is asked for it.
pub mod Resolution
mod Tests
use roksbnkctl.Prelude.{
  Bool, true, false, not, ◌||◌, Option, none, some, List, [], ◌∷◌, ◌++◌, if◌then◌else◌, Text, lit,
  empty, ◌==◌, trim_space, to_lower, has_prefix,
}

pub record Resolver : Type 0 where
  pub workspace : Text
  pub non_interactive : Bool
  pub source : Text

-- A lookup outside the program: its answer, that there is none, or an error.
pub data Lookup : Type 0 where
  found : Text → Lookup
  not_found : Lookup
  failed : Lookup

-- What the resolver reads. `api_key_b64` is that field of a workspace's config, and `decode` is
-- `base64.StdEncoding.DecodeString`, `none` where it fails. `password` is the line that
-- `term.ReadPassword` reads, and `reply` the answer to the question whether to save.
pub record World : Type 0 where
  pub env : Text → Text
  pub keychain : Text → Text → Lookup
  pub api_key_b64 : Text → Lookup
  pub decode : Text → Option Text
  pub is_terminal : Bool
  pub password : Option Text
  pub reply : Text

pub data Failure : Type 0 where
  env_miss : Failure
  keychain_failed : Failure
  keychain_miss : Text → Failure
  load_failed : Failure
  not_base64 : Failure
  decodes_to_empty : Failure
  config_miss : Text → Failure
  prompt_refused : Failure
  unknown_source : Text → Failure
  non_interactive_miss : Text → Failure
  no_terminal : Text → Failure
  read_failed : Failure
  empty_key : Failure

-- What the user sees and the program stores; a key is saved with SaveAPIKeyForWorkspace, whose own
-- error is only a warning.
pub data Effect : Type 0 where
  asked_key : Text → Effect
  asked_to_save : Effect
  saved : Text → Text → Effect

pub data Answer : Type 0 where
  key : Text → Answer
  failure : Failure → Answer

unfoldable pub keychain_service : Text
keychain_service = lit "roksbnkctl"

unfoldable pub api_key_env_vars : List Text
api_key_env_vars =
    lit "IBMCLOUD_API_KEY"
    ∷ lit "IC_API_KEY"
    ∷ lit "TF_VAR_ibmcloud_api_key"
    ∷ lit "TF_VAR_IBMCLOUD_API_KEY"
    ∷ lit "TF_VAR_IC_API_KEY"
    ∷ []

-- The loop of `apiKeyFromEnv`.
unfoldable pub first_set : World → List Text → Option Text
first_set world [] = none
first_set world (v ∷ vars) =
    let rest = first_set world vars in if world.env v == empty then rest else some (world.env v)

unfoldable pub api_key_from_env : World → Option Text
api_key_from_env world = first_set world api_key_env_vars

-- `apiKeyFromKeychain` and `apiKeyFromConfig` answer with an empty key where there is none.
unfoldable pub api_key_from_keychain : World → Text → Answer
api_key_from_keychain world workspace =
    if workspace == empty
    then key empty
    else elim (world.keychain keychain_service (workspace ++ lit "/ibmcloud_api_key")) [
      | found k ↦ key k
      | not_found ↦ key empty
      | failed ↦ failure keychain_failed
    ]

-- The end of `apiKeyFromConfig`, on what was decoded.
non_empty : Text → Answer
non_empty decoded =
    if trim_space decoded == empty then failure decodes_to_empty else key (trim_space decoded)

unfoldable pub api_key_from_config : World → Text → Answer
unfolding non_empty
api_key_from_config world workspace =
    if workspace == empty then key empty else elim (world.api_key_b64 workspace) [
      | failed ↦ failure load_failed
      | not_found ↦ key empty
      | found b64 ↦ if b64 == empty then key empty else elim (world.decode (trim_space b64)) [
        | none ↦ failure not_base64
        | some decoded ↦ non_empty decoded
      ]
    ]

-- The end of `apiKeyFromPrompt`: a key for a named workspace is saved unless the user declines.
save_effects : World → Text → Text → List Effect
save_effects world workspace k =
    let answer = trim_space (to_lower world.reply) in
    if workspace == empty
    then []
    else if answer == empty || has_prefix answer (lit "y")
    then asked_to_save ∷ saved workspace k ∷ []
    else asked_to_save ∷ []

unfoldable pub api_key_from_prompt : World → Text → Answer × List Effect
unfolding save_effects
api_key_from_prompt world workspace =
    if not world.is_terminal
    then (failure (no_terminal workspace), [])
    else let asked = asked_key (if workspace == empty then lit "default" else workspace) in
      elim world.password [
        | none ↦ (failure read_failed, asked ∷ [])
        | some line ↦
            let k = trim_space line in
            if k == empty
            then (failure empty_key, asked ∷ [])
            else (key k, asked ∷ save_effects world workspace k)
      ]

-- The result of a source that must have a key.
unfoldable pub required : Failure → Answer → Answer
required miss (failure f) = failure f
required miss (key k) = if k == empty then failure miss else key k

-- The key of a source that may be passed over.
unfoldable pub usable : Answer → Option Text
usable (failure f) = none
usable (key k) = if k == empty then none else some k

abbrev first_key : Option Text → Option Text → Option Text
first_key none o = o
first_key (some k) o = some k

-- The chain of an empty `Source`.
unfoldable pub stored_key : World → Text → Option Text
stored_key world workspace = first_key (api_key_from_env world) (
    if workspace == empty
    then none
    else first_key (usable (api_key_from_keychain world workspace))
        (usable (api_key_from_config world workspace)))

-- `IBMCloudAPIKey` of a resolver that is not nil.
unfoldable pub ibm_cloud_api_key : World → Resolver → Answer × List Effect
ibm_cloud_api_key world r =
    if r.source == empty
    then elim (stored_key world r.workspace) [
      | some k ↦ (key k, [])
      | none ↦
          if r.non_interactive
          then (failure (non_interactive_miss r.workspace), [])
          else api_key_from_prompt world r.workspace
    ]
    else if r.source == lit "env"
    then elim (api_key_from_env world) [ some k ↦ (key k, []) | none ↦ (failure env_miss, []) ]
    else if r.source == lit "keychain"
    then (required (keychain_miss r.workspace) (api_key_from_keychain world r.workspace), [])
    else if r.source == lit "config"
    then (required (config_miss r.workspace) (api_key_from_config world r.workspace), [])
    else if r.source == lit "prompt"
    then (if r.non_interactive
        then (failure prompt_refused, [])
        else api_key_from_prompt world r.workspace)
    else (failure (unknown_source r.source), [])
