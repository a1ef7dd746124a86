-- ===== src/DeepCopy/Laws/Connection.antt =====
-- The blocks on the connection to the server: their copies are deep.
use kubeturbo_deploy.Prelude.{refl}
use kubeturbo_deploy.Types.Blocks.{
  KubeturboRestApiConfig, KubeturboSdkProtocolConfig, KubeturboServerMeta, KubeturboTargetConfig,
}
use kubeturbo_deploy.DeepCopy.Layout.{
  KubeturboRestApiConfigLayout, KubeturboSdkProtocolConfigLayout, KubeturboServerMetaLayout,
  KubeturboTargetConfigLayout,
}
use kubeturbo_deploy.DeepCopy.Cells.Instances.{stored_text, stored_number, stored_flag}
use kubeturbo_deploy.DeepCopy.Connection.{
  kubeturbo_server_meta_deep_copy_into, kubeturbo_rest_api_config_deep_copy_into,
  kubeturbo_sdk_protocol_config_deep_copy_into, kubeturbo_target_config_deep_copy_into,
}
use kubeturbo_deploy.DeepCopy.Views.Connection.{
  kubeturbo_server_meta_view, kubeturbo_server_meta_reach, kubeturbo_rest_api_config_view,
  kubeturbo_rest_api_config_reach, kubeturbo_sdk_protocol_config_view,
  kubeturbo_sdk_protocol_config_reach, kubeturbo_target_config_view, kubeturbo_target_config_reach,
}
use kubeturbo_deploy.Heap.Copies.{IsDeepCopy, ◌⊗◌}
use kubeturbo_deploy.Heap.Slices.{◌&◌, fields-IsDeepCopy}
use kubeturbo_deploy.DeepCopy.Laws.Fields.{pointer_law}

pub kubeturbo_server_meta_deep_copy_into-IsDeepCopy :
    IsDeepCopy kubeturbo_server_meta_view kubeturbo_server_meta_reach
      kubeturbo_server_meta_deep_copy_into
unfolding kubeturbo_server_meta_deep_copy_into
kubeturbo_server_meta_deep_copy_into-IsDeepCopy =
    fields-IsDeepCopy {M = KubeturboServerMetaLayout} {V = KubeturboServerMeta}
      (λ m. m.version & m.proxy) (λ m n. record m { version = n.0; proxy = n.1 })
      (λ m w. record { version = w.0; turbo_server = m.turbo_server; proxy = w.1 })
      (pointer_law ⊗ pointer_law) (λ m n. refl) (λ m n w. refl)

pub kubeturbo_rest_api_config_deep_copy_into-IsDeepCopy :
    IsDeepCopy kubeturbo_rest_api_config_view kubeturbo_rest_api_config_reach
      kubeturbo_rest_api_config_deep_copy_into
unfolding kubeturbo_rest_api_config_deep_copy_into
kubeturbo_rest_api_config_deep_copy_into-IsDeepCopy =
    fields-IsDeepCopy {M = KubeturboRestApiConfigLayout} {V = KubeturboRestApiConfig}
      (λ m. m.ops_manager_user_name & m.ops_manager_password)
      (λ m n. record m { ops_manager_user_name = n.0; ops_manager_password = n.1 })
      (λ m w. record {
        turbonomic_credentials_secret_name = m.turbonomic_credentials_secret_name;
        ops_manager_user_name = w.0;
        ops_manager_password = w.1;
      })
      (pointer_law ⊗ pointer_law) (λ m n. refl) (λ m n w. refl)

pub kubeturbo_sdk_protocol_config_deep_copy_into-IsDeepCopy :
    IsDeepCopy kubeturbo_sdk_protocol_config_view kubeturbo_sdk_protocol_config_reach
      kubeturbo_sdk_protocol_config_deep_copy_into
unfolding kubeturbo_sdk_protocol_config_deep_copy_into
kubeturbo_sdk_protocol_config_deep_copy_into-IsDeepCopy =
    fields-IsDeepCopy {M = KubeturboSdkProtocolConfigLayout} {V = KubeturboSdkProtocolConfig}
      (λ m. m.registration_timeout_sec & m.restart_on_registration_timeout)
      (λ m n. record m { registration_timeout_sec = n.0; restart_on_registration_timeout = n.1 })
      (λ m w. record { registration_timeout_sec = w.0; restart_on_registration_timeout = w.1 })
      (pointer_law ⊗ pointer_law) (λ m n. refl) (λ m n w. refl)

pub kubeturbo_target_config_deep_copy_into-IsDeepCopy :
    IsDeepCopy kubeturbo_target_config_view kubeturbo_target_config_reach
      kubeturbo_target_config_deep_copy_into
unfolding kubeturbo_target_config_deep_copy_into
kubeturbo_target_config_deep_copy_into-IsDeepCopy =
    fields-IsDeepCopy {M = KubeturboTargetConfigLayout} {V = KubeturboTargetConfig}
      (λ m. m.target_name) (λ m n. record m { target_name = n }) (λ m w. record { target_name = w })
      (pointer_law) (λ m n. refl) (λ m n w. refl)
