-- ===== src/Cmd/Diff/Rows.antt =====
-- cmd/kubectl-kubera/main.go: the lines of the table.
use kubera.Base.{
  ◌≡◌, arith, subst, ◌++◌, Option, none, some, inl, inr, String, List, [], ◌∷◌, All, All-map,
  All-append, Among, Option-cases,
}
use kubera.Kube.Quantity.{Quantity}
use kubera.Kube.Objects.{Container}
use kubera.Api.{ContainerRecommendation, WorkloadRecommendation, DynamicResource}
use kubera.Cmd.Diff.Template.{Among-append_left, Among-append_right, Says, row_of-Says}
use kubera.Cmd.Diff.{
  Row, Reader, current_requests, container_rows, found_rows, workload_rows, object_rows, run_diff,
}

module _ {Q S : Type 0} ⦃q : Quantity Q⦄ (reader : Reader Q S) where
  container_rows_sound :
      (namespace workload : String) (containers : List (Container Q))
      (cs : List (ContainerRecommendation Q))
      → All
          (λ row. Among (λ c. Says reader namespace workload containers c row) cs)
          (container_rows reader namespace workload (current_requests containers []) cs)
  unfolding container_rows
  container_rows_sound namespace workload containers [] = tt
  container_rows_sound namespace workload containers (c ∷ cs) = (
    inl (row_of-Says reader namespace workload containers c),
    All-map _ (λ row h. inr h) (container_rows_sound namespace workload containers cs),
  )

  -- The line is that of a container of the recommendation, whose deployment was read.
  abbrev pub IsOf : String → WorkloadRecommendation Q → Option (List (Container Q)) → Row → Type 0
  IsOf namespace rec none row = ⊥
  IsOf namespace rec (some containers) row =
      Among (λ c. Says reader namespace rec.workload containers c row) rec.containers

  found_rows_sound :
      (namespace : String) (rec : WorkloadRecommendation Q) (o : Option (List (Container Q)))
      → All (IsOf namespace rec o) (found_rows reader namespace rec o)
  unfolding container_rows
  found_rows_sound namespace rec none = tt
  found_rows_sound namespace rec (some containers) =
      container_rows_sound namespace rec.workload containers rec.containers

  workload_rows_sound :
      (namespace : String) (recs : List (WorkloadRecommendation Q))
      → All
          (λ row.
            Among (λ rec. IsOf namespace rec (reader.deployment namespace rec.workload) row) recs)
          (workload_rows reader namespace recs)
  unfolding workload_rows
  workload_rows_sound namespace [] = tt
  workload_rows_sound namespace (rec ∷ recs) =
      let found = reader.deployment namespace rec.workload in
      All-append _ (found_rows reader namespace rec found) (workload_rows reader namespace recs)
        (All-map _ (λ row h. inl h) (found_rows_sound namespace rec found))
        (All-map _ (λ row h. inr h) (workload_rows_sound namespace recs))

  -- The line is that of a container that an object recommends for.
  abbrev pub IsShown : List (DynamicResource Q S) → Row → Type 0
  IsShown drs row =
      Among
        (λ dr.
          Among (λ rec. IsOf dr.namespace rec (reader.deployment dr.namespace rec.workload) row)
            dr.status.recommendations)
        drs

  object_rows_sound :
      (drs : List (DynamicResource Q S)) → All (IsShown drs) (object_rows reader drs)
  unfolding object_rows
  object_rows_sound [] = tt
  object_rows_sound (dr ∷ drs) =
      All-append _ (workload_rows reader dr.namespace dr.status.recommendations)
        (object_rows reader drs)
        (All-map _ (λ row h. inl h) (workload_rows_sound dr.namespace dr.status.recommendations))
        (All-map _ (λ row h. inr h) (object_rows_sound drs))

  container_rows_complete :
      (namespace workload : String) (containers : List (Container Q))
      (cs : List (ContainerRecommendation Q))
      → All
          (λ c.
            Among
              (Says reader namespace workload containers c)
              (container_rows reader namespace workload (current_requests containers []) cs))
          cs
  unfolding container_rows
  container_rows_complete namespace workload containers [] = tt
  container_rows_complete namespace workload containers (c ∷ cs) = (
    inl (row_of-Says reader namespace workload containers c),
    All-map _ (λ x h. inr h) (container_rows_complete namespace workload containers cs),
  )

  -- Each container of the recommendation has a line, if the deployment was read.
  abbrev pub IsIn :
      List Row → String → WorkloadRecommendation Q → Option (List (Container Q)) → Type 0
  IsIn rows namespace rec none = Unit
  IsIn rows namespace rec (some containers) =
      All (λ c. Among (Says reader namespace rec.workload containers c) rows) rec.containers

  found_rows_complete :
      (namespace : String) (rec : WorkloadRecommendation Q) (o : Option (List (Container Q)))
      → IsIn (found_rows reader namespace rec o) namespace rec o
  unfolding container_rows
  found_rows_complete namespace rec none = tt
  found_rows_complete namespace rec (some containers) =
      container_rows_complete namespace rec.workload containers rec.containers

  IsIn-append_left :
      (xs ys : List Row) (namespace : String) (rec : WorkloadRecommendation Q)
      (o : Option (List (Container Q)))
      → IsIn xs namespace rec o
      → IsIn (xs ++ ys) namespace rec o
  IsIn-append_left xs ys namespace rec none h = tt
  IsIn-append_left xs ys namespace rec (some containers) h =
      All-map _ (λ c among. Among-append_left _ xs ys among) h

  IsIn-append_right :
      (xs ys : List Row) (namespace : String) (rec : WorkloadRecommendation Q)
      (o : Option (List (Container Q)))
      → IsIn ys namespace rec o
      → IsIn (xs ++ ys) namespace rec o
  IsIn-append_right xs ys namespace rec none h = tt
  IsIn-append_right xs ys namespace rec (some containers) h =
      All-map _ (λ c among. Among-append_right _ xs ys among) h

  -- Each recommendation of an object whose deployment was read.
  abbrev AreIn : List Row → String → List (WorkloadRecommendation Q) → Type 0
  AreIn rows namespace recs =
      All (λ rec. IsIn rows namespace rec (reader.deployment namespace rec.workload)) recs

  workload_rows_complete :
      (namespace : String) (recs : List (WorkloadRecommendation Q))
      → AreIn (workload_rows reader namespace recs) namespace recs
  unfolding workload_rows
  workload_rows_complete namespace [] = tt
  workload_rows_complete namespace (rec ∷ recs) =
      let found = reader.deployment namespace rec.workload in
      let here = found_rows reader namespace rec found in
      let later = workload_rows reader namespace recs in
      (
        IsIn-append_left here later namespace rec found (found_rows_complete namespace rec found),
        All-map _ (λ r h. IsIn-append_right here later namespace r _ h)
            (workload_rows_complete namespace recs),
      )

  object_rows_complete :
      (drs : List (DynamicResource Q S))
      → All (λ dr. AreIn (object_rows reader drs) dr.namespace dr.status.recommendations) drs
  unfolding object_rows
  object_rows_complete [] = tt
  object_rows_complete (dr ∷ drs) =
      let here = workload_rows reader dr.namespace dr.status.recommendations in
      let later = object_rows reader drs in
      (
        All-map _ (λ r h. IsIn-append_left here later dr.namespace r _ h)
            (workload_rows_complete dr.namespace dr.status.recommendations),
        All-map _ (λ d all. All-map _ (λ r h. IsIn-append_right here later d.namespace r _ h) all)
            (object_rows_complete drs),
      )

  run_diff-listed :
      (kubeconfig namespace : String) {rows : List Row}
      → run_diff reader kubeconfig namespace ≡ some rows
      → (drs : List (DynamicResource Q S)) × (reader.list namespace ≡ some drs)
        × (object_rows reader drs ≡ rows)
  unfolding run_diff
  run_diff-listed kubeconfig namespace h = elim (Option-cases (reader.list namespace)) [
    | inl unlisted ↦ ground arith
    | inr (drs, e) ↦ (drs, e, ground arith)
  ]

  -- When the table is printed, the objects of the namespace were listed, each of its lines is that of
  -- a container that one of the objects recommends for and whose deployment was read, and each such
  -- container has a line. The line says the target of the object, and as the current requests those
  -- of the template's last container of the same name, with a dash for one that is not set.
  pub run_diff-IsShown :
      (kubeconfig namespace : String) {rows : List Row}
      → run_diff reader kubeconfig namespace ≡ some rows
      → (drs : List (DynamicResource Q S)) × (reader.list namespace ≡ some drs)
        × All (IsShown drs) rows
        × All
            (λ dr.
              All
                (λ rec. IsIn rows dr.namespace rec (reader.deployment dr.namespace rec.workload))
                dr.status.recommendations)
            drs
  run_diff-IsShown kubeconfig namespace h =
      let (drs, listed, e) = run_diff-listed kubeconfig namespace h in
      (
        drs,
        listed,
        subst (λ rows. All (IsShown drs) rows) e (object_rows_sound drs),
        subst (λ rows. All (λ dr. AreIn rows dr.namespace dr.status.recommendations) drs) e
            (object_rows_complete drs),
      )
