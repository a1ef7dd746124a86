-- ===== src/DeepCopy/Connection.antt =====
-- api/v1/zz_generated.deepcopy.go: the blocks on the connection to the server.
-- `*out = *in` is the record that the copied fields update. A method fills `*out`, which is the value that
-- it gives back here.
use kubeturbo_deploy.Prelude.{Option}
use kubeturbo_deploy.Heap.{Pointer, Alloc, pure, ◌>>=◌, copy_pointer, copy_struct}
use kubeturbo_deploy.DeepCopy.Layout.{
  KubeturboRestApiConfigLayout, KubeturboSdkProtocolConfigLayout, KubeturboServerMetaLayout,
  KubeturboTargetConfigLayout,
}
use kubeturbo_deploy.DeepCopy.Cells.{Cell}
use kubeturbo_deploy.DeepCopy.Cells.Instances.{
  stored_text, stored_number, stored_flag, stored_kubeturbo_rest_api_config,
  stored_kubeturbo_sdk_protocol_config, stored_kubeturbo_server_meta,
  stored_kubeturbo_target_config,
}

unfoldable pub kubeturbo_server_meta_deep_copy_into :
    KubeturboServerMetaLayout → Alloc Cell KubeturboServerMetaLayout
kubeturbo_server_meta_deep_copy_into obj = do
  version ← copy_pointer obj.version
  proxy ← copy_pointer obj.proxy
  pure (record obj { version = version; proxy = proxy })

unfoldable pub kubeturbo_server_meta_deep_copy :
    Option (Pointer KubeturboServerMetaLayout)
    → Alloc Cell (Option (Pointer KubeturboServerMetaLayout))
kubeturbo_server_meta_deep_copy = copy_struct kubeturbo_server_meta_deep_copy_into

unfoldable pub kubeturbo_rest_api_config_deep_copy_into :
    KubeturboRestApiConfigLayout → Alloc Cell KubeturboRestApiConfigLayout
kubeturbo_rest_api_config_deep_copy_into obj = do
  ops_manager_user_name ← copy_pointer obj.ops_manager_user_name
  ops_manager_password ← copy_pointer obj.ops_manager_password
  pure (record obj {
    ops_manager_user_name = ops_manager_user_name;
    ops_manager_password = ops_manager_password;
  })

unfoldable pub kubeturbo_rest_api_config_deep_copy :
    Option (Pointer KubeturboRestApiConfigLayout)
    → Alloc Cell (Option (Pointer KubeturboRestApiConfigLayout))
kubeturbo_rest_api_config_deep_copy = copy_struct kubeturbo_rest_api_config_deep_copy_into

unfoldable pub kubeturbo_sdk_protocol_config_deep_copy_into :
    KubeturboSdkProtocolConfigLayout → Alloc Cell KubeturboSdkProtocolConfigLayout
kubeturbo_sdk_protocol_config_deep_copy_into obj = do
  registration_timeout_sec ← copy_pointer obj.registration_timeout_sec
  restart_on_registration_timeout ← copy_pointer obj.restart_on_registration_timeout
  pure (record obj {
    registration_timeout_sec = registration_timeout_sec;
    restart_on_registration_timeout = restart_on_registration_timeout;
  })

unfoldable pub kubeturbo_sdk_protocol_config_deep_copy :
    Option (Pointer KubeturboSdkProtocolConfigLayout)
    → Alloc Cell (Option (Pointer KubeturboSdkProtocolConfigLayout))
kubeturbo_sdk_protocol_config_deep_copy = copy_struct kubeturbo_sdk_protocol_config_deep_copy_into

unfoldable pub kubeturbo_target_config_deep_copy_into :
    KubeturboTargetConfigLayout → Alloc Cell KubeturboTargetConfigLayout
kubeturbo_target_config_deep_copy_into obj = do
  target_name ← copy_pointer obj.target_name
  pure (record obj { target_name = target_name })

unfoldable pub kubeturbo_target_config_deep_copy :
    Option (Pointer KubeturboTargetConfigLayout)
    → Alloc Cell (Option (Pointer KubeturboTargetConfigLayout))
kubeturbo_target_config_deep_copy = copy_struct kubeturbo_target_config_deep_copy_into
