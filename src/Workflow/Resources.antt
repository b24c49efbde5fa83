-- ===== src/Workflow/Resources.antt =====
-- The resource that `resourceMetadata` makes of a result (src/workflow-operations/workflow-operation.worker.ts).
use Prim.Native.String.{◌++◌}
use jagalchi_api.Base.{
  String, Option, none, some, ◌≡◌, ◌⊎◌, subst, refl, sym, ◌∙◌, inl, inr, Option-cases,
}
use jagalchi_api.Base.Int.{pos}
use jagalchi_api.Json.{Json, null, bool, num, text, arr, obj, member}
use jagalchi_api.Workflow.Types.{Operation}
use jagalchi_api.Workflow.Finish.{Resource}
use jagalchi_api.Workflow.Worker.{as_text, member_of, named_resource, resource_metadata}

-- The field `resource` of a value has a type, an identifier and an address, all of them texts.
abbrev pub Names : Json → String → String → String → Type 0
Names v kind id href =
    (r : Json) × (member "resource" v ≡ some r)
    × (member "resourceType" r ≡ some (text kind))
    × (member "resourceId" r ≡ some (text id))
    × (member "resourceHref" r ≡ some (text href))

-- `execution.projectRun.id` of a value is a text.
abbrev pub Runs : Json → String → Type 0
Runs v id =
    (e : Json) × (member "execution" v ≡ some e)
    × ((p : Json) × (member "projectRun" e ≡ some p) × (member "id" p ≡ some (text id)))

-- The resource of a result: the one that it names, else the project run that it made, else the
-- operation.
pub data Points (op : Operation) (v : Json) : String → String → String → Type 0 where
  by_name : {kind id href : String} → Names v kind id href → Points op v kind id href
  by_run :
      {id : String}
      → ((k i h : String) → Names v k i h → ⊥)
      → Runs v id
      → Points op v "PROJECT_RUN" id ("/api/project-runs/" ++ id)
  by_operation :
      ((k i h : String) → Names v k i h → ⊥)
      → ((i : String) → Runs v i → ⊥)
      → Points op v (op.kind ++ "_RESULT") op.id ("/api/v1/operations/" ++ op.id)

as_text-some : (o : Option Json) {t : String} → as_text o ≡ some t → o ≡ some (text t)
as_text-some none h = cc
as_text-some (some (text s)) h = cc
as_text-some (some null) h = cc
as_text-some (some (bool _)) h = cc
as_text-some (some (num _)) h = cc
as_text-some (some (arr _)) h = cc
as_text-some (some (obj _)) h = cc

-- A text member of a value that may be missing.
member_of-some :
    (k : String) (o : Option Json) {t : String}
    → as_text (member_of k o) ≡ some t
    → (r : Json) × (o ≡ some r) × (member k r ≡ some (text t))
member_of-some k none h = cc
member_of-some k (some r) h = (r, refl, as_text-some (member k r) h)

no_text :
    (k : String) (o : Option Json)
    → as_text (member_of k o) ≡ none
    → (r : Json) (t : String) → o ≡ some r
    → member k r ≡ some (text t)
    → ⊥
no_text k o h r t e m =
    let g : as_text (member_of k (some r)) ≡ none = rw e at h in
    let f : as_text (some (text t)) ≡ none = rw m at g in cc

some_same : {x y : Json} → some x ≡ some y → x ≡ y
some_same h = cc

-- `named_resource` answers what the value names.
named_resource-cases :
    (v : Json)
    → ((r : Resource) × (named_resource v ≡ some r) × Names v r.kind r.id r.href)
      ⊎ ((named_resource v ≡ none) × ((k i h : String) → Names v k i h → ⊥))
unfolding named_resource
named_resource-cases v =
    let r = member "resource" v in
    elim (Option-cases (as_text (member_of "resourceType" r))) [
      | inl e ↦
          inr (
            rw (e, named_resource) refl,
            λ k i h (x, f, a, b, c). no_text "resourceType" r e x k f a,
          )
      | inr (t, e) ↦ elim (Option-cases (as_text (member_of "resourceId" r))) [
        | inl g ↦ inr (
          rw (e, g, named_resource) refl,
          λ k i h (x, f, a, b, c). no_text "resourceId" r g x i f b,
        )
        | inr (j, g) ↦ elim (Option-cases (as_text (member_of "resourceHref" r))) [
          | inl q ↦ inr (
            rw (e, g, q, named_resource) refl,
            λ k i h (x, f, a, b, c). no_text "resourceHref" r q x h f c,
          )
          | inr (l, q) ↦
              let (x, f, a) = member_of-some "resourceType" r e in
              let (y, f', b) = member_of-some "resourceId" r g in
              let (z, f'', c) = member_of-some "resourceHref" r q in
              let xy = some_same (sym f' ∙ f) in
              let xz = some_same (sym f'' ∙ f) in
              inl (
                record { kind = t; id = j; href = l; schema_version = some (pos 1) },
                rw (e, g, q, named_resource) refl,
                (
                  x,
                  f,
                  a,
                  subst (λ w. member "resourceId" w ≡ some (text j)) xy b,
                  subst (λ w. member "resourceHref" w ≡ some (text l)) xz c,
                ),
              )
        ]
      ]
    ]

member_of-none :
    (k : String) (o : Option Json) (r : Json) {v : Json}
    → o ≡ some r
    → member k r ≡ some v
    → member_of k o ≡ some v
member_of-none k o r e m = rw (e, m) refl

unrun :
    (v : Json)
    → as_text (member_of "id" (member_of "projectRun" (member "execution" v))) ≡ none
    → (i : String) → Runs v i
    → ⊥
unrun v h i (e, f, (p, g, m)) =
    no_text "id" (member_of "projectRun" (member "execution" v)) h p i
      (member_of-none "projectRun" (member "execution" v) e f g) m

member_of-found :
    (k : String) (o : Option Json) {p : Json}
    → member_of k o ≡ some p
    → (e : Json) × (o ≡ some e) × (member k e ≡ some p)
member_of-found k none h = cc
member_of-found k (some e) h = (e, refl, h)

-- The resource that the worker reports is the one that the result points to.
pub resource_metadata-Points :
    (op : Operation) (v : Json) → (let r = resource_metadata op v in Points op v r.kind r.id r.href)
unfolding resource_metadata
resource_metadata-Points op v = elim (named_resource-cases v) [
  | inl (r, e, names) ↦ rw (e, resource_metadata) (by_name names)
  | inr (e, unnamed) ↦
      let run = member_of "projectRun" (member "execution" v) in
      elim (Option-cases (as_text (member_of "id" run))) [
        | inr (i, f) ↦
            let (p, g, m) = member_of-some "id" run f in
            let (x, y, z) = member_of-found "projectRun" (member "execution" v) g in
            rw (e, f, resource_metadata) (by_run unnamed (x, y, (p, z, m)))
        | inl f ↦ rw (e, f, resource_metadata) (by_operation unnamed (unrun v f))
      ]
]
