-- ===== src/Config/Contents/Dynamic.antt =====
-- turbo-autoreload.config
use kubeturbo_deploy.Prelude.{
  String, ◌≡◌, refl, ap, ◌∙◌, Bool, true, false, Option, none, some, List, [], ◌∷◌, arith, ◌==◌,
  ◌||◌, is_some, if◌then◌else◌,
}
use kubeturbo_deploy.Json.{Json, number, text, boolean, strings, object, Block, end, set_member}
use kubeturbo_deploy.Json.Lookup.{member_of, member_of-set_member, read}
use kubeturbo_deploy.Config.{
  dynamic_config, node_pool_size_block, daemon_pod_detectors_block, set_wiremock,
}
use kubeturbo_deploy.Config.Contents.{map_json, or_else, reading, inner_if, read_at}
use kubeturbo_deploy.Types.{KubeturboSpec}

-- The wiremock block is there if the mode is enabled and has a URL.
abbrev wiremock_json : Option Bool → Option String → Option Json
wiremock_json (some true) (some url) =
    some (object (set_member "url" (text url) (set_member "enabled" (boolean true) end)))
wiremock_json _ _ = none

member_of-set_wiremock :
    (e : Option Bool) (u : Option String) (j : String) (b : Block)
    → member_of j (set_wiremock e u b)
      ≡ (if "wiremock" == j then or_else (wiremock_json e u) (member_of j b) else member_of j b)
unfolding set_wiremock
member_of-set_wiremock (some true) (some url) j b =
    member_of-set_member "wiremock" j
      (object (set_member "url" (text url) (set_member "enabled" (boolean true) end))) b
member_of-set_wiremock none _ j b = ground arith
member_of-set_wiremock (some false) _ j b = ground arith
member_of-set_wiremock (some true) none j b = ground arith

ruleset rules = (reading, member_of-set_wiremock, dynamic_config)

abbrev pub at : List String → KubeturboSpec → Option Json
at path s = read path (some (object (dynamic_config s)))

module _ (s : KubeturboSpec) where
  node_pool_member :
      member_of "nodePoolSize" (dynamic_config s)
      ≡ inner_if
          (is_some s.node_pool_size.min || is_some s.node_pool_size.max)
          (node_pool_size_block s)
  unfolding dynamic_config
  node_pool_member = simp rules

  daemon_member :
      member_of "daemonPodDetectors" (dynamic_config s)
      ≡ inner_if
          (is_some s.daemon_pod_detectors.namespace_patterns
            || is_some s.daemon_pod_detectors.pod_name_patterns)
          (daemon_pod_detectors_block s)
  unfolding dynamic_config
  daemon_member = simp rules

  wiremock_member :
      member_of "wiremock" (dynamic_config s)
      ≡ or_else (wiremock_json s.wiremock.enabled s.wiremock.url) none
  unfolding dynamic_config
  wiremock_member = simp rules

  logging_member :
      member_of "logging" (dynamic_config s) ≡ or_else (map_json number s.logging.level) none
  unfolding dynamic_config
  logging_member = simp rules

  -- The largest pool size goes under "mac" and never under "max"; the logging level is a bare number
  -- and not a block with a level; the patterns for daemon pods go under the keys of the exclusion
  -- detectors, and never under "namespaces" and "podNamePatterns".
  pub dynamic_config_misplaced :
      (at ("nodePoolSize" ∷ "mac" ∷ []) s ≡ map_json number s.node_pool_size.max)
      × (at ("daemonPodDetectors" ∷ "operatorControlledWorkloadsPatterns" ∷ []) s
          ≡ map_json strings s.daemon_pod_detectors.namespace_patterns)
      × (at ("daemonPodDetectors" ∷ "operatorControlledNamespacePatterns" ∷ []) s
          ≡ map_json strings s.daemon_pod_detectors.pod_name_patterns)
      × (at ("nodePoolSize" ∷ "max" ∷ []) s ≡ none)
      × (at ("logging" ∷ []) s ≡ map_json number s.logging.level)
      × (at ("logging" ∷ "level" ∷ []) s ≡ none)
      × (at ("daemonPodDetectors" ∷ "namespaces" ∷ []) s ≡ none)
      × (at ("daemonPodDetectors" ∷ "podNamePatterns" ∷ []) s ≡ none)
  unfolding daemon_pod_detectors_block node_pool_size_block
  dynamic_config_misplaced = (
    read_at (dynamic_config s) "nodePoolSize" "mac" _ (node_pool_size_block s)
        (map_json number s.node_pool_size.max) node_pool_member (λ h. ground arith)
        (simp (reading, node_pool_size_block) (ground arith)),
    read_at (dynamic_config s) "daemonPodDetectors" "operatorControlledWorkloadsPatterns" _
        (daemon_pod_detectors_block s) (map_json strings s.daemon_pod_detectors.namespace_patterns)
        daemon_member (λ h. ground arith)
        (simp (reading, daemon_pod_detectors_block) (ground arith)),
    read_at (dynamic_config s) "daemonPodDetectors" "operatorControlledNamespacePatterns" _
        (daemon_pod_detectors_block s) (map_json strings s.daemon_pod_detectors.pod_name_patterns)
        daemon_member (λ h. ground arith)
        (simp (reading, daemon_pod_detectors_block) (ground arith)),
    read_at (dynamic_config s) "nodePoolSize" "max" _ (node_pool_size_block s) none node_pool_member
        (λ h. refl) (simp (reading, node_pool_size_block)),
    logging_member ∙ ground arith,
    ap (read ("level" ∷ [])) logging_member ∙ ground arith,
    read_at (dynamic_config s) "daemonPodDetectors" "namespaces" _ (daemon_pod_detectors_block s)
        none daemon_member (λ h. refl) (simp (reading, daemon_pod_detectors_block)),
    read_at (dynamic_config s) "daemonPodDetectors" "podNamePatterns" _
        (daemon_pod_detectors_block s) none daemon_member (λ h. refl)
        (simp (reading, daemon_pod_detectors_block)),
  )

  -- The block for WireMock, with its URL, is in the dynamic configuration exactly if it is enabled
  -- and has a URL.
  pub dynamic_config-wiremock :
      at ("wiremock" ∷ []) s ≡ or_else (wiremock_json s.wiremock.enabled s.wiremock.url) none
  dynamic_config-wiremock = wiremock_member
