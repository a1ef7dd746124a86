-- ===== src/Workload/Pod.antt =====
-- internal/api/kubeturbo/reconciler.go, mutateDeployment: the specification of the deployment.
use kubeturbo_deploy.Prelude.{String, ◌<>◌, true, false, Option, none, some, List, [], ◌∷◌}
use kubeturbo_deploy.Prelude.Decimal.{pos}
use kubeturbo_deploy.Prelude.Maps.{Map}
use kubeturbo_deploy.Outcome.{Outcome, ok, and_then}
use kubeturbo_deploy.Constants.{kubeturbo_container_name}
use kubeturbo_deploy.Request.{name}
use kubeturbo_deploy.Types.{Kubeturbo}
use kubeturbo_deploy.Types.Blocks.{ResourceRequirements, internalize}
use kubeturbo_deploy.Config.{deref}
use kubeturbo_deploy.ContainerArgs.{container_args}
use kubeturbo_deploy.Objects.{
  DeploymentSpec, Container, Volume, config_map_volume, secret_volume, empty_dir,
}

unfoldable pub config_map_name : Kubeturbo → String
unfolding name
config_map_name kt = "turbo-config" <> "-" <> name kt

abbrev image_pull_secrets : Option String → List String
image_pull_secrets none = []
image_pull_secrets (some secret) = secret ∷ []

abbrev image_pull_policy : Option String → String
image_pull_policy none = "IfNotPresent"
image_pull_policy (some policy) = policy

-- utils.AsPtr
abbrev as_ptr : {A : Type 0} → A → Option A
as_ptr t = some t

resource_requirements : Option ResourceRequirements → ResourceRequirements
unfolding internalize
resource_requirements none = record { limits = []; requests = [] }
resource_requirements (some rr) = internalize rr

container : Kubeturbo → String → Container
container kt tag = record {
  name = kubeturbo_container_name;
  env = record { name = "KUBETURBO_NAMESPACE"; field_path = "metadata.namespace" } ∷ [];
  image = kt.spec.image.repository <> ":" <> tag;
  image_pull_policy = image_pull_policy kt.spec.image.pull_policy;
  args = container_args kt.spec;
  security_context = record {
    privileged = as_ptr false;
    allow_privilege_escalation = as_ptr false;
    read_only_root_filesystem = as_ptr true;
    drop = "ALL" ∷ [];
  };
  resources = resource_requirements kt.spec.resources;
  volume_mounts =
      record { name = "turbo-volume"; mount_path = "/etc/kubeturbo"; read_only = true }
      ∷ record {
        name = "turbonomic-credentials-volume";
        mount_path = "/etc/turbonomic-credentials";
        read_only = true;
      }
      ∷ record { name = "varlog"; mount_path = "/var/log"; read_only = false }
      ∷ [];
}

volumes : Kubeturbo → List Volume
volumes kt =
    record { name = "turbo-volume"; source = config_map_volume (config_map_name kt) }
    ∷ record {
      name = "turbonomic-credentials-volume";
      source =
          secret_volume kt.spec.rest_api_config.turbonomic_credentials_secret_name (as_ptr true)
            (as_ptr (pos 420));
    }
    ∷ record { name = "varlog"; source = empty_dir }
    ∷ []

-- `*kt.spec.Image.Tag` panics where the tag is nil.
unfoldable pub deployment_spec : Kubeturbo → Map String → Outcome DeploymentSpec
unfolding container volumes resource_requirements config_map_name
deployment_spec kt ls = and_then (deref kt.spec.image.tag) λ tag. ok (record {
  replicas = kt.spec.replica_count;
  strategy = "Recreate";
  selector = some ls;
  template = record {
    annotations = kt.spec.annotations;
    labels = ls;
    spec = record {
      service_account_name = kt.spec.service_account_name;
      image_pull_secrets = image_pull_secrets kt.spec.image.image_pull_secret;
      restart_policy = "Always";
      node_selector = kt.spec.kubeturbo_pod_scheduling.node_selector;
      affinity = kt.spec.kubeturbo_pod_scheduling.affinity;
      tolerations = kt.spec.kubeturbo_pod_scheduling.tolerations;
      run_as_non_root = as_ptr true;
      containers = container kt tag ∷ [];
      volumes = volumes kt;
    };
  };
})
