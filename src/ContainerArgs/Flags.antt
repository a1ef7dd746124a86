-- ===== src/ContainerArgs/Flags.antt =====
-- Reading the command line back.
use mathlib.Core.List.{append_assoc}
use kubeturbo_deploy.Prelude.{
  String, ◌<>◌, ◌≡◌, refl, ◌∙◌, Bool, true, false, Option, none, some, List, [], ◌∷◌, ◌++◌, arith,
  strip_prefix, ◌&&◌, if◌then◌else◌, char_eq, All,
}
use kubeturbo_deploy.Types.{KubeturboSpec}
use kubeturbo_deploy.ContainerArgs.{add, add_if, of_int, of_bool, container_args}

abbrev pub first_some : Option String → Option String → Option String
first_some none o = o
first_some (some v) o = some v

-- The value of the first argument that begins with the flag.
pub flag_value : String → List String → Option String
flag_value flag [] = none
flag_value flag (arg ∷ args) = first_some (strip_prefix flag arg) (flag_value flag args)

abbrev Settings : Type 0
Settings = List (String × Option String)

-- The arguments of a list of settings.
abbrev render : Settings → List String
render [] = []
render ((flag, value) ∷ l) = add flag value ++ render l

-- Neither flag is a beginning of the other.
abbrev apart : String → String → Bool
apart String.[] g = false
apart (String.◌∷◌ c f) String.[] = false
apart (String.◌∷◌ c f) (String.◌∷◌ d g) = let rest = apart f g in if char_eq c d then rest else true

abbrev apart_from : String → Settings → Bool
apart_from f [] = true
apart_from f ((g, _) ∷ l) = apart f g && apart g f && apart_from f l

abbrev pairwise_apart : Settings → Bool
pairwise_apart [] = true
pairwise_apart ((f, _) ∷ l) = apart_from f l && pairwise_apart l

strip_prefix-apart : (f g v : String) → apart f g ≡ true → strip_prefix f (g <> v) ≡ none
strip_prefix-apart String.[] g v h = ground arith
strip_prefix-apart (String.◌∷◌ c f) String.[] v h = ground arith
strip_prefix-apart (String.◌∷◌ c f) (String.◌∷◌ d g) v h = ground (arith, strip_prefix-apart f g v)

char_eq_refl : (f v : String) → strip_prefix f (f <> v) ≡ some v
char_eq_refl String.[] v = refl
char_eq_refl (String.◌∷◌ c f) v = ground (arith, char_eq_refl f v)

flag_value-append :
    (flag : String) (xs ys : List String)
    → flag_value flag (xs ++ ys) ≡ first_some (flag_value flag xs) (flag_value flag ys)
unfolding flag_value
flag_value-append flag [] ys = refl
flag_value-append flag (x ∷ xs) ys = ground (arith, flag_value-append flag xs ys)

flag_value-add_other :
    (f g : String) (o : Option String) → apart f g ≡ true → flag_value f (add g o) ≡ none
unfolding flag_value add
flag_value-add_other f g none h = refl
flag_value-add_other f g (some v) h = rw (strip_prefix-apart f g v h)

flag_value-add : (f : String) (o : Option String) → flag_value f (add f o) ≡ o
unfolding flag_value add
flag_value-add f none = refl
flag_value-add f (some v) = rw (char_eq_refl f v)

flag_value-render :
    (f : String) (l : Settings) → apart_from f l ≡ true → flag_value f (render l) ≡ none
unfolding flag_value
flag_value-render f [] h = refl
flag_value-render f ((g, o) ∷ l) h =
    flag_value-append f (add g o) (render l)
    ∙ ground (arith, flag_value-add_other f g o, flag_value-render f l)

-- Settings that are apart from the arguments in front.
abbrev Fresh : List String → Settings → Type 0
Fresh before = All (λ (e : String × Option String). flag_value e.0 before ≡ none)

Fresh-add :
    (before : List String) (f : String) (o : Option String) (l : Settings)
    → Fresh before l
    → apart_from f l ≡ true
    → Fresh (before ++ add f o) l
Fresh-add before f o [] h a = tt
Fresh-add before f o ((g, p) ∷ l) (h, hs) a = (
  flag_value-append g before (add f o) ∙ ground (arith, flag_value-add_other g f o),
  Fresh-add before f o l hs (ground arith),
)

Fresh-nil : (l : Settings) → Fresh [] l
unfolding flag_value
Fresh-nil [] = tt
Fresh-nil ((f, o) ∷ l) = (refl, Fresh-nil l)

read_settings :
    (before : List String) (l : Settings)
    → Fresh before l
    → pairwise_apart l ≡ true
    → All (λ (e : String × Option String). flag_value e.0 (before ++ render l) ≡ e.1) l
read_settings before [] h p = tt
read_settings before ((f, o) ∷ l) (h, hs) p = (
  flag_value-append f before (add f o ++ render l)
      ∙ rw h (
          flag_value-append f (add f o) (render l)
          ∙ ground (arith, flag_value-add f o, flag_value-render f l)),
  rw (append_assoc before (add f o) (render l)) at (
      read_settings (before ++ add f o) l (Fresh-add before f o l hs (ground arith))
        (ground arith)),
)

abbrev old_version : Option Bool → Option String
old_version (some true) = some "1.5"
old_version _ = none

-- Every flag with the value that the specification gives it.
abbrev pub settings : KubeturboSpec → List (String × Option String)
settings s =
    ("--turboconfig=", some "/etc/kubeturbo/turbo.config")
    ∷ ("--v=", of_int s.args.logginglevel)
    ∷ ("--kubelet-https=", of_bool s.args.kubelethttps)
    ∷ ("--kubelet-port=", of_int s.args.kubeletport)
    ∷ ("--scc-support=", s.args.sccsupport)
    ∷ ("--readiness-retry-threshold=", of_int s.args.readiness_retry_threshold)
    ∷ ("--fail-volume-pod-moves=", of_bool s.args.fail_volume_pod_moves)
    ∷ ("--busybox-image=", s.image.busybox_repository)
    ∷ ("--busybox-image-pull-secret=", s.image.image_pull_secret)
    ∷ ("--cpufreqgetter-image-pull-secret=", s.image.image_pull_secret)
    ∷ ("--cpufreqgetter-image=", s.image.cpufreqgetter_repository)
    ∷ ("--cpufreq-job-exclude-node-labels=", s.args.busybox_exclude_node_labels)
    ∷ ("--stitch-uuid=", of_bool s.args.stitchuuid)
    ∷ ("--k8sVersion=", old_version s.args.pre16_k8s_version)
    ∷ ("--cleanup-scc-impersonation-resources=", of_bool s.args.cleanup_scc_impersonation_resources)
    ∷ (
      "--skip-creating-scc-impersonation-resources=",
      of_bool s.args.skip_creating_scc_impersonation_resources,
    )
    ∷ ("--git-email=", s.args.git_email)
    ∷ ("--git-username=", s.args.git_username)
    ∷ ("--git-secret-name=", s.args.git_secret_name)
    ∷ ("--git-secret-namespace=", s.args.git_secret_namespace)
    ∷ ("--git-commit-mode=", s.args.git_commit_mode)
    ∷ ("--satellite-location-provider=", s.args.satellite_location_provider)
    ∷ ("--discovery-interval-sec=", of_int s.args.discovery_interval_sec)
    ∷ ("--discovery-sample-interval=", of_int s.args.discovery_sample_interval_sec)
    ∷ ("--discovery-samples=", of_int s.args.discovery_samples)
    ∷ ("--discovery-timeout-sec=", of_int s.args.discovery_timeout_sec)
    ∷ ("--garbage-collection-interval=", of_int s.args.garbage_collection_interval_min)
    ∷ ("--discovery-workers=", of_int s.args.discovery_workers)
    ∷ []

add_if-add : (p : Option Bool) → add_if "--k8sVersion=1.5" p ≡ add "--k8sVersion=" (old_version p)
unfolding add_if add
add_if-add none = refl
add_if-add (some true) = refl
add_if-add (some false) = refl

container_args-render : (s : KubeturboSpec) → container_args s ≡ render (settings s)
unfolding container_args
container_args-render s = rw (add_if-add s.args.pre16_k8s_version)

-- Each of the 28 flags is on the command line exactly if the specification sets it, with its value,
-- and no flag is mistaken for another.
pub container_args-settings :
    (s : KubeturboSpec)
    → All (λ (e : String × Option String). flag_value e.0 (container_args s) ≡ e.1) (settings s)
container_args-settings s =
    rw container_args-render (read_settings [] (settings s) (Fresh-nil (settings s)) refl)
