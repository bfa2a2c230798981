-- ===== src/Cmd/Diff.antt =====
-- cmd/kubectl-kubera/main.go: the table of current and recommended requests. Reading the objects and
-- the deployments, and printing quantities, are arguments.
pub mod Template
pub mod Rows
use kubera.Base.{
  ◌++◌, Bool, not, Option, none, some, String, List, [], ◌∷◌, str_eq, lookup, insert, if◌then◌else◌,
}
use kubera.Kube.Quantity.{Quantity}
use kubera.Kube.Objects.{ResourceName, ResourceList, get, or_zero, Container}
use kubera.Api.{ContainerRecommendation, WorkloadRecommendation, DynamicResource}

-- A line of the table.
pub record Row : Type 0 where
  pub namespace : String
  pub workload : String
  pub container : String
  pub current_cpu : String
  pub recommended_cpu : String
  pub current_memory : String
  pub recommended_memory : String

-- The cluster, and `q.String()`. A deployment's containers are those of its pod template.
pub record Reader (Q S : Type 0) : Type 0 where
  -- Whether the configuration of this path, and the two clients made with it, come without an error.
  pub has_config : String → Bool
  pub has_client : String → Bool
  pub has_object_client : String → Bool
  pub list : String → Option (List (DynamicResource Q S))
  pub deployment : String → String → Option (List (Container Q))
  pub print : Q → String

-- The exit codes 2 and 1, and 0 after the table.
pub data Finished : Type 0 where
  usage failed : Finished
  printed : List Row → Finished

-- The environment of the process and the paths of package filepath.
unfoldable pub default_kubeconfig : String → Option String → (List String → String) → String
default_kubeconfig variable home join =
    if str_eq variable ""
    then elim home [ none ↦ "" | some dir ↦ join (dir ∷ ".kube" ∷ "config" ∷ []) ]
    else variable

-- The map `current`; a nil map of requests has no keys.
unfoldable pub current_requests :
    {Q : Type 0}
    → List (Container Q)
    → List (String × Option (ResourceList Q))
    → List (String × Option (ResourceList Q))
current_requests [] current = current
current_requests (c ∷ cs) current = current_requests cs (insert c.name c.requests current)

module _ {Q S : Type 0} ⦃q : Quantity Q⦄ (reader : Reader Q S) where
  abbrev text_or_dash : Option Q → String
  text_or_dash none = "-"
  text_or_dash (some a) = reader.print a

  abbrev pub column : ResourceName → Option (Option (ResourceList Q)) → String
  column name none = "-"
  column name (some none) = "-"
  column name (some (some requests)) = text_or_dash (get name requests)

  abbrev pub row_of :
      String → String → List (String × Option (ResourceList Q)) → ContainerRecommendation Q → Row
  row_of namespace workload current c =
      let requests = lookup c.container_name current in
      record {
        namespace = namespace;
        workload = workload;
        container = c.container_name;
        current_cpu = column ResourceName.cpu requests;
        recommended_cpu = reader.print (or_zero c.target.cpu);
        current_memory = column ResourceName.memory requests;
        recommended_memory = reader.print (or_zero c.target.memory);
      }

  -- The loop over a workload's containers.
  unfoldable pub container_rows :
      String
      → String
      → List (String × Option (ResourceList Q))
      → List (ContainerRecommendation Q)
      → List Row
  container_rows namespace workload current [] = []
  container_rows namespace workload current (c ∷ cs) =
      row_of namespace workload current c ∷ container_rows namespace workload current cs

  -- A deployment that can not be read is passed over.
  abbrev pub found_rows : String → WorkloadRecommendation Q → Option (List (Container Q)) → List Row
  found_rows namespace rec none = []
  found_rows namespace rec (some containers) =
      container_rows namespace rec.workload (current_requests containers []) rec.containers

  -- The loop over an object's recommendations.
  unfoldable pub workload_rows : String → List (WorkloadRecommendation Q) → List Row
  unfolding container_rows current_requests
  workload_rows namespace [] = []
  workload_rows namespace (rec ∷ recs) =
      found_rows namespace rec (reader.deployment namespace rec.workload)
      ++ workload_rows namespace recs

  -- The loop over the objects.
  unfoldable pub object_rows : List (DynamicResource Q S) → List Row
  unfolding workload_rows
  object_rows [] = []
  object_rows (dr ∷ drs) = workload_rows dr.namespace dr.status.recommendations ++ object_rows drs

  abbrev listed_rows : Option (List (DynamicResource Q S)) → Option (List Row)
  listed_rows none = none
  listed_rows (some drs) = some (object_rows drs)

  -- The lines under the header; `none` is an error.
  unfoldable pub run_diff : String → String → Option (List Row)
  unfolding object_rows
  run_diff kubeconfig namespace =
      if not (reader.has_config kubeconfig)
      then none
      else (if not (reader.has_client kubeconfig)
          then none
          else (if not (reader.has_object_client kubeconfig)
              then none
              else listed_rows (reader.list namespace)))

  abbrev exit_of : Option (List Row) → Finished
  exit_of none = failed
  exit_of (some rows) = printed rows

  -- `main`, given the first argument and the flags.
  unfoldable pub run_command : String → String → String → Finished
  unfolding run_diff
  run_command argument kubeconfig namespace =
      if not (str_eq argument "diff") then usage else exit_of (run_diff kubeconfig namespace)
