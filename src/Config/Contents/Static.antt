-- ===== src/Config/Contents/Static.antt =====
-- turbo.config
use kubeturbo_deploy.Prelude.{
  String, ◌≡◌, refl, ap, ◌∙◌, Bool, true, false, Option, none, some, List, [], ◌∷◌, arith, ◌&&◌,
  ◌||◌, is_some, if◌then◌else◌,
}
use kubeturbo_deploy.Outcome.{ok}
use kubeturbo_deploy.Json.{Json, text, object, Block}
use kubeturbo_deploy.Json.Lookup.{member_of, read}
use kubeturbo_deploy.Config.{config, config_block, comm_config_block, rest_api_block}
use kubeturbo_deploy.Config.NodeRoles.{node_roles}
use kubeturbo_deploy.Config.Contents.{map_json, reading, inner_if}
use kubeturbo_deploy.Types.{KubeturboSpec}

-- A configuration is built from the version and the roles, where both can be had.
config-ok :
    (s : KubeturboSpec) (b : Block)
    → config s ≡ ok b
    → (v : String) × (roles : List String) × (s.server_meta.version ≡ some v)
      × (node_roles s.ha_node_config.node_roles ≡ ok roles)
      × (b ≡ config_block v roles s)
unfolding config
config-ok s b h = ground arith

read_if :
    (c : Bool) (inner : Block) (k : String) (o : Option Json)
    → member_of k inner ≡ o
    → read (k ∷ []) (inner_if c inner) ≡ (if c then o else none)
read_if true inner k o e = e
read_if false inner k o e = refl

abbrev sdk_given : KubeturboSpec → Bool
sdk_given s =
    is_some s.sdk_protocol_config.registration_timeout_sec
    || is_some s.sdk_protocol_config.restart_on_registration_timeout

abbrev pub both_credentials : KubeturboSpec → Bool
both_credentials s =
    is_some s.rest_api_config.ops_manager_user_name
    && is_some s.rest_api_config.ops_manager_password

module _ (v : String) (roles : List String) (s : KubeturboSpec) where
  comm_member :
      member_of "communicationConfig" (config_block v roles s)
      ≡ some (object (comm_config_block v s))
  unfolding config_block
  comm_member = simp (reading, config_block)

  rest_member :
      member_of "restAPIConfig" (comm_config_block v s)
      ≡ inner_if
          (is_some s.rest_api_config.ops_manager_user_name
            && is_some s.rest_api_config.ops_manager_password)
          (rest_api_block s)
  unfolding comm_config_block
  rest_member = simp (reading, comm_config_block)

  -- A value of the communication block.
  read_comm :
      (path : List String)
      → read ("communicationConfig" ∷ path) (some (object (config_block v roles s)))
        ≡ read path (some (object (comm_config_block v s)))
  read_comm path = ap (read path) comm_member

  read_credential :
      (k : String) (o : Option Json)
      → member_of k (rest_api_block s) ≡ o
      → read
          ("communicationConfig" ∷ "restAPIConfig" ∷ k ∷ [])
          (some (object (config_block v roles s)))
        ≡ (if both_credentials s then o else none)
  read_credential k o e =
      read_comm ("restAPIConfig" ∷ k ∷ [])
      ∙ ap (read (k ∷ [])) rest_member
      ∙ read_if (both_credentials s) (rest_api_block s) k o e

module _ (s : KubeturboSpec) (b : Block) (built : config s ≡ ok b) where
  -- The user name and the password stand in the configuration if both are given, and neither of
  -- them otherwise.
  pub config-credentials :
      (read ("communicationConfig" ∷ "restAPIConfig" ∷ "opsManagerUserName" ∷ []) (some (object b))
        ≡ (if both_credentials s
            then map_json text s.rest_api_config.ops_manager_user_name
            else none))
      × (read
            ("communicationConfig" ∷ "restAPIConfig" ∷ "opsManagerPassword" ∷ [])
            (some (object b))
          ≡ (if both_credentials s
              then map_json text s.rest_api_config.ops_manager_password
              else none))
  unfolding rest_api_block
  config-credentials =
      let (v, roles, ev, er, eb) = config-ok s b built in
      rw eb (
        read_credential v roles s "opsManagerUserName" _
            (simp (reading, rest_api_block) (ground arith)),
        read_credential v roles s "opsManagerPassword" _
            (simp (reading, rest_api_block) (ground arith)),
      )
