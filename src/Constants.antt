-- ===== src/Constants.antt =====
-- internal/constants/constants.go
use kubeturbo_deploy.Prelude.{String, ℕ}

abbrev pub operator_name : String
operator_name = "kubeturbo-operator"

abbrev pub name_label_key : String
name_label_key = "app.kubernetes.io/name"

abbrev pub instance_label_key : String
instance_label_key = "app.kubernetes.io/instance"

abbrev pub part_of_label_key : String
part_of_label_key = "app.kubernetes.io/part-of"

abbrev pub component_label_key : String
component_label_key = "app.kubernetes.io/component"

abbrev pub managed_by_label_key : String
managed_by_label_key = "app.kubernetes.io/managed-by"

abbrev pub created_by_label_key : String
created_by_label_key = "app.kubernetes.io/created-by"

abbrev pub kubeturbo_crd_name : String
kubeturbo_crd_name = "kubeturbos.charts.helm.k8s.io"

abbrev pub kubeturbo_container_name : String
kubeturbo_container_name = "kubeturbo"

abbrev pub kubeturbo_component_type : String
kubeturbo_component_type = "kubeturbo"

abbrev pub control_gen_annotation : String
control_gen_annotation = "controller-gen.kubebuilder.io/version"

abbrev pub kubeturbo_finalizer : String
kubeturbo_finalizer = "helm.k8s.io/finalizer"

abbrev pub requeue_delay_seconds : ℕ
requeue_delay_seconds = 1

abbrev pub timeout_in_seconds : ℕ
timeout_in_seconds = 5
