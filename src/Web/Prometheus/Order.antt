-- ===== src/Web/Prometheus/Order.antt =====
-- crates/huginn-web/src/prometheus.rs: `render` and the order of the results that it is given.
use mathlib.Core.List.{Permᴰ}
use huginn_io.Core.BTree.{text_lt}
use huginn_io.Core.BTree.Laws.{text_lt_trans, text_lt_total, text_lt_irrefl}
use huginn_io.Core.Platform.{Platform}
use huginn_io.Core.Stats.{WriteStats}
use huginn_io.Core.Types.{ProbeResult}
use huginn_io.Prelude.{
  ◌≡◌, ◌≢◌, refl, sym, subst, ap, ◌∙◌, true, false, List, [], ◌∷◌, arith, All, Text, Bool-cases,
  inl, inr,
}
use huginn_io.Web.Prometheus.{insert_by_name, sort_by_name, render}

text_lt_asym : (a b : Text) → text_lt a b ≡ true → text_lt b a ≡ false
text_lt_asym a b h = elim (Bool-cases (text_lt b a)) [
  | inl back ↦ absurd (ground (arith, text_lt_irrefl a, text_lt_trans a b a h back))
  | inr stays ↦ stays
]

module _ {p : Platform} where
  insert_by_name_comm :
      (a b : ProbeResult p) (rs : List (ProbeResult p))
      → a.probe_name ≢ b.probe_name
      → insert_by_name a (insert_by_name b rs) ≡ insert_by_name b (insert_by_name a rs)
  unfolding insert_by_name
  insert_by_name_comm a b [] ne =
      let t = text_lt_total a.probe_name b.probe_name in
      let u = text_lt_total b.probe_name a.probe_name in
      ground (arith, t, u, text_lt_asym a.probe_name b.probe_name)
  insert_by_name_comm a b (x ∷ rs) ne =
      let k = a.probe_name in
      let l = b.probe_name in
      let m = x.probe_name in
      ground (
        arith,
        text_lt_total k l,
        text_lt_total l k,
        text_lt_asym k l,
        text_lt_trans m k l,
        text_lt_trans m l k,
        insert_by_name_comm a b rs ne,
      )

  -- No other result has this one's name.
  abbrev pub Alone : ProbeResult p → List (ProbeResult p) → Type 0
  Alone a = All (λ b. a.probe_name ≢ b.probe_name)

  abbrev pub NamesDiffer : List (ProbeResult p) → Type 0
  NamesDiffer [] = Unit
  NamesDiffer (a ∷ rs) = Alone a rs × NamesDiffer rs

  name_of : {a b : ProbeResult p} → a ≡ b → a.probe_name ≡ b.probe_name
  name_of e = ap (λ (r : ProbeResult p). r.probe_name) e

  Permᴰ-Alone :
      (a : ProbeResult p) {xs ys : List (ProbeResult p)} → Permᴰ xs ys → Alone a xs → Alone a ys
  Permᴰ-Alone a Permᴰ.nil h = tt
  Permᴰ-Alone a (Permᴰ.cons e q) h = (rw e at h.0, Permᴰ-Alone a q h.1)
  Permᴰ-Alone a (Permᴰ.swap e f) h = (rw f at h.1.0, (rw e at h.0, h.1.1))
  Permᴰ-Alone a (Permᴰ.trans q r) h = Permᴰ-Alone a r (Permᴰ-Alone a q h)

  Permᴰ-NamesDiffer : {xs ys : List (ProbeResult p)} → Permᴰ xs ys → NamesDiffer xs → NamesDiffer ys
  Permᴰ-NamesDiffer Permᴰ.nil h = tt
  Permᴰ-NamesDiffer (Permᴰ.cons {a = a} {l₂ = m} e q) h =
      (subst (λ x. Alone x m) e (Permᴰ-Alone a q h.0), Permᴰ-NamesDiffer q h.1)
  Permᴰ-NamesDiffer (Permᴰ.swap {l = l} e f) h = (
    (λ same. h.0.0 (name_of e ∙ sym same ∙ sym (name_of f)), subst (λ x. Alone x l) f h.1.0),
    (subst (λ x. Alone x l) e h.0.1, h.1.1),
  )
  Permᴰ-NamesDiffer (Permᴰ.trans q r) h = Permᴰ-NamesDiffer r (Permᴰ-NamesDiffer q h)

  sort_by_name-Permᴰ :
      {xs ys : List (ProbeResult p)}
      → Permᴰ xs ys
      → NamesDiffer xs
      → sort_by_name xs ≡ sort_by_name ys
  unfolding sort_by_name
  sort_by_name-Permᴰ Permᴰ.nil h = refl
  sort_by_name-Permᴰ (Permᴰ.cons e q) h = rw (e, sort_by_name-Permᴰ q h.1)
  sort_by_name-Permᴰ (Permᴰ.swap {l = l} e f) h =
      insert_by_name_comm _ _ (sort_by_name l) h.0.0 ∙ rw (e, f)
  sort_by_name-Permᴰ (Permᴰ.trans q r) h =
      sort_by_name-Permᴰ q h ∙ sort_by_name-Permᴰ r (Permᴰ-NamesDiffer q h)

  pub render-Permᴰ :
      (xs ys : List (ProbeResult p)) (stats : WriteStats)
      → Permᴰ xs ys
      → NamesDiffer xs
      → render xs stats ≡ render ys stats
  unfolding render
  render-Permᴰ xs ys stats q h = rw (sort_by_name-Permᴰ q h)
