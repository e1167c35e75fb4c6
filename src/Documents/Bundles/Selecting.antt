-- ===== src/Documents/Bundles/Selecting.antt =====
-- What the selections of a bundle give: of Select, SelectOne, SelectBundle and SelectByFieldValue.
use airshipctl.Base.{
  String, Bool, true, false, List, [], ◌∷◌, ◌++◌, ok, err, crash, ◌>>=◌, Outcome-cases, Bool-cases,
  ◌≡◌, ◌↔◌, inl, inr, refl, ap, sym, ◌∙◌, arith,
}
use mathlib.Core.List.{append-nil, append_assoc}
use airshipctl.Base.Texts.{contains}
use airshipctl.Documents.Selectors.{Selector, doc_not_found, multi_docs_found, Reply}
use airshipctl.Documents.Library.{Value, Call, Kustomize, library, IsResourceMap}
use airshipctl.Documents.Bundles.{
  Bundle, to_documents, get_all_documents, select, only_one, select_one, append_all, select_bundle,
  append_matching, select_by_field_value, append_document,
}

module _ (K : Kustomize) where
  open K use {Resource, ResMap}

  to_documents_lem : (rs : List Resource) → to_documents K rs ≡ ok rs
  unfolding to_documents
  to_documents_lem [] = refl
  to_documents_lem (r ∷ rs) = ground (arith, to_documents_lem rs)

  -- Select gives the resources that kustomize selects, in its order.
  pub select_lem : (s : Selector) (b : Bundle K) → select K s b ≡ library (K.select s b.res_map)
  unfolding select
  select_lem s b = elim (Outcome-cases (K.select s b.res_map)) [
    | inl (rs, e) ↦ rw e (to_documents_lem rs)
    | inr (inl (x, e)) ↦ rw e
    | inr (inr (k, e)) ↦ rw e
  ]

  -- What `r` is, exactly where its only document is taken, or it has none, or more than one.
  abbrev OneOf : Selector → Resource → Reply (List Resource) → Type 0
  OneOf s d r =
      (((r >>= only_one K s) ≡ ok d) ↔ (r ≡ ok (d ∷ [])))
      × (((r >>= only_one K s) ≡ err (doc_not_found s)) ↔ (r ≡ ok []))
      × (((r >>= only_one K s) ≡ err (multi_docs_found s))
          ↔ ((x : Resource) × (y : Resource) × (rest : List Resource) × (r ≡ ok (x ∷ y ∷ rest))))

  only_one-OneOf : (s : Selector) (d : Resource) (c : Call (List Resource)) → OneOf s d (library c)
  unfolding only_one
  only_one-OneOf s d (ok []) =
      ((λ h. cc, λ h. cc), (λ h. refl, λ h. refl), (λ h. absurd (cc), λ (x, y, rest, h). cc))
  only_one-OneOf s d (ok (x ∷ [])) =
      ((λ h. cc, λ h. cc), (λ h. cc, λ h. cc), (λ h. absurd (cc), λ (x, y, rest, h). cc))
  only_one-OneOf s d (ok (x ∷ y ∷ rest)) =
      ((λ h. cc, λ h. cc), (λ h. cc, λ h. cc), (λ h. (x, y, rest, refl), λ (x, y, rest, h). refl))
  only_one-OneOf s d (err e) =
      ((λ h. cc, λ h. cc), (λ h. cc, λ h. cc), (λ h. absurd (cc), λ (x, y, rest, h). cc))
  only_one-OneOf s d (crash k) =
      ((λ h. cc, λ h. cc), (λ h. cc, λ h. cc), (λ h. absurd (cc), λ (x, y, rest, h). cc))

  -- SelectOne gives a document exactly if it is the only one selected, and reports none, or more than
  -- one, exactly if there is none, or more than one.
  pub select_one_lem :
      (s : Selector) (b : Bundle K) (d : Resource)
      → ((select_one K s b ≡ ok d) ↔ (select K s b ≡ ok (d ∷ [])))
        × ((select_one K s b ≡ err (doc_not_found s)) ↔ (select K s b ≡ ok []))
        × ((select_one K s b ≡ err (multi_docs_found s)) ↔ (
            (x : Resource) × (y : Resource) × (rest : List Resource) × (select K s b
              ≡ ok (x ∷ y ∷ rest))))
  unfolding select_one
  select_one_lem s b d = rw (select_lem s b) (only_one-OneOf s d (K.select s b.res_map))

  module _ (laws : IsResourceMap K) where
    append_all-resources :
        (rs : List Resource) (m m' : ResMap)
        → append_all K rs m ≡ ok m'
        → K.resources m' ≡ K.resources m ++ rs
    unfolding append_all
    append_all-resources [] m m' h =
        ap K.resources (let e : m' ≡ m = cc in e) ∙ sym (append-nil (K.resources m))
    append_all-resources (r ∷ rs) m m' h = elim (Outcome-cases (K.append r m)) [
      | inl (m₁, e) ↦
          append_all-resources rs m₁ m' (rw e at h)
          ∙ rw (laws.resources-append r m m₁ e) (append_assoc (K.resources m) (r ∷ []) rs)
      | inr (inl (x, e)) ↦ absurd (ground arith)
      | inr (inr (k, e)) ↦ absurd (ground arith)
    ]

    -- The bundle of SelectBundle holds the documents that Select gives, with the options and the files
    -- of the old bundle.
    pub select_bundle-documents :
        (s : Selector) (b b' : Bundle K)
        → select_bundle K s b ≡ ok b'
        → (get_all_documents K b' ≡ select K s b)
          × (b'.build_options ≡ b.build_options)
          × (b'.files ≡ b.files)
    unfolding select_bundle get_all_documents
    select_bundle-documents s b b' h = elim (Outcome-cases (K.select s b.res_map)) [
      | inr (inl (x, e)) ↦ absurd (ground arith)
      | inr (inr (k, e)) ↦ absurd (ground arith)
      | inl (rs, e) ↦ elim (Outcome-cases (append_all K rs K.no_resources)) [
        | inr (inl (x, f)) ↦ absurd (ground arith)
        | inr (inr (k, f)) ↦ absurd (ground arith)
        | inl (m, f) ↦
            let found = append_all-resources rs K.no_resources m f in
            let same : K.resources b'.res_map ≡ rs = ground (arith, found, laws.resources-none) in
            (rw (same, select_lem s b, e) (to_documents_lem rs), ground arith, ground arith)
      ]
    ]

    -- The resources of a list that SelectByFieldValue keeps, in their order: those that have the field
    -- with a value that meets the condition. Others have it with another value, or lack it.
    pub data Kept (path : String) (condition : Value → Bool)
        : List Resource → List Resource → Type 0 where
      nothing : Kept path condition [] []
      keep :
          {r : Resource} {rs ks : List Resource} {v : Value}
          → K.get_field_value path r ≡ ok v
          → condition v ≡ true
          → Kept path condition rs ks
          → Kept path condition (r ∷ rs) (r ∷ ks)
      leave :
          {r : Resource} {rs ks : List Resource} {v : Value}
          → K.get_field_value path r ≡ ok v
          → condition v ≡ false
          → Kept path condition rs ks
          → Kept path condition (r ∷ rs) ks
      lack :
          {r : Resource} {rs ks : List Resource} {text : String}
          → K.get_field_value path r ≡ err text
          → contains text "no field named" ≡ true
          → Kept path condition rs ks
          → Kept path condition (r ∷ rs) ks

    append_matching-Kept :
        (path : String) (condition : Value → Bool) (rs : List Resource) (m m' : ResMap)
        → append_matching K path condition rs m ≡ ok m'
        → (ks : List Resource) × Kept path condition rs ks × (K.resources m' ≡ K.resources m ++ ks)
    unfolding append_matching
    append_matching-Kept path condition [] m m' h =
        ([], nothing, ap K.resources (let e : m' ≡ m = cc in e) ∙ sym (append-nil (K.resources m)))
    append_matching-Kept path condition (r ∷ rs) m m' h =
        elim (Outcome-cases (K.get_field_value path r)) [
          | inl (v, e) ↦ elim (Bool-cases (condition v)) [
            | inl yes_it_is ↦ elim (Outcome-cases (K.append r m)) [
              | inl (m₁, f) ↦
                  let (ks, kept, same) =
                    append_matching-Kept path condition rs m₁ m' (ground arith) in
                  (
                    r ∷ ks,
                    keep e yes_it_is kept,
                    same
                        ∙ rw (laws.resources-append r m m₁ f)
                            (append_assoc (K.resources m) (r ∷ []) ks),
                  )
              | inr (inl (x, f)) ↦ absurd (ground arith)
              | inr (inr (k, f)) ↦ absurd (ground arith)
            ]
            | inr not_it ↦
                let (ks, kept, same) = append_matching-Kept path condition rs m m' (ground arith) in
                (ks, leave e not_it kept, same)
          ]
          | inr (inl (text, e)) ↦ elim (Bool-cases (contains text "no field named")) [
            | inl lacks ↦
                let (ks, kept, same) = append_matching-Kept path condition rs m m' (ground arith) in
                (ks, lack e lacks kept, same)
            | inr other ↦ absurd (ground arith)
          ]
          | inr (inr (k, e)) ↦ absurd (ground arith)
        ]

    -- The bundle of SelectByFieldValue holds, in their order, exactly the documents that have the field
    -- with a value that meets the condition; every other one has another value there or lacks the field.
    pub select_by_field_value-Kept :
        (path : String) (condition : Value → Bool) (b b' : Bundle K)
        → select_by_field_value K path condition b ≡ ok b'
        → Kept path condition (K.resources b.res_map) (K.resources b'.res_map)
    unfolding select_by_field_value
    select_by_field_value-Kept path condition b b' h =
        elim (Outcome-cases
          (append_matching K path condition (K.resources b.res_map) K.no_resources)) [
            | inr (inl (x, f)) ↦ absurd (ground arith)
            | inr (inr (k, f)) ↦ absurd (ground arith)
            | inl (m, f) ↦
                let (ks, kept, same) =
                  append_matching-Kept path condition (K.resources b.res_map) K.no_resources m f in
                let e : K.resources b'.res_map ≡ ks = ground (arith, same, laws.resources-none) in
                rw e kept
          ]

  -- Append returns no error, and appends nothing, where kustomize does not take the text of the document.
  pub append_document_loses :
      (d : Resource) (b : Bundle K) (yaml text : String)
      → K.as_yaml d ≡ ok yaml
      → K.from_bytes yaml ≡ err text
      → append_document K d b ≡ ok b
  unfolding append_document
  append_document_loses d b yaml text p q = ground arith
