-- ===== src/Api/Traces/Table.antt =====
-- The table of strings of src/api/traces.rs: an index that it gave always stands for its string.
use spanfall.Prelude.{
  ℕ, ◌+◌, ◌^◌, ◌<◌, ◌≤◌, ◌≡◌, refl, ap, Option, none, some, List, [], ◌∷◌, length, length-append,
  leb, get_elem?, Option-cases, inl, inr, arith, list_eq, ℕ_eq, subst, false,
}
use spanfall.Prelude.Map
use spanfall.Prelude.Text.{Text}
use spanfall.Types.{trace_id_eq}
use spanfall.Interner.{Interner, intern, intern_new}
use spanfall.Interner.Bounds.{Interns, intern-Interns, IsValid as Interner_IsValid}
use spanfall.Api.Traces.{StringTable, table_intern, intern_service, intern_span}

-- The table is an interner with a cap that it does not reach.
abbrev pub as_interner : StringTable → Interner
as_interner table = record {
  map = table.index;
  values = table.strings;
  cap = 2 ^ 32;
  cap_hit_count = 0;
}

table_intern_lem :
    (table : StringTable) (s : Text)
    → length table.strings < 2 ^ 32
    → intern (as_interner table) s
      ≡ (as_interner (table_intern table s).0, some (table_intern table s).1)
unfolding intern intern_new table_intern
table_intern_lem table s h = elim (Option-cases (Map.get table.index s)) [
  | inr (id, e) ↦ rw (e, table_intern)
  | inl e ↦ rw (
    e,
    table_intern,
    let full : leb (2 ^ 32) (length table.strings) ≡ false = ground arith in full,
  )
]

-- What interning one more string promises.
pub record Adds (table : StringTable) (s : Text) (table' : StringTable) (id : ℕ) : Type 0 where
  pub valid : Interner_IsValid (as_interner table')
  pub resolves : get_elem? table'.strings id ≡ some s
  pub keeps :
      (i : ℕ) (u : Text) → get_elem? table.strings i ≡ some u → get_elem? table'.strings i ≡ some u
  pub short : length table'.strings ≤ length table.strings + 1

table_intern-short :
    (table : StringTable) (s : Text)
    → length (table_intern table s).0.strings ≤ length table.strings + 1
unfolding table_intern
table_intern-short table s = elim (Option-cases (Map.get table.index s)) [
  | inr (id, e) ↦ rw (e, table_intern) (omega arith)
  | inl e ↦ rw (e, table_intern) (omega (arith, length-append table.strings (s ∷ [])))
]

table_intern-Adds :
    (table : StringTable) (s : Text)
    → Interner_IsValid (as_interner table)
    → length table.strings < 2 ^ 32
    → Adds table s (table_intern table s).0 (table_intern table s).1
table_intern-Adds table s v h =
    let same = table_intern_lem table s h in
    let o : Interns (as_interner table) s (as_interner (table_intern table s).0)
        (some (table_intern table s).1) =
      subst (λ r. Interns (as_interner table) s r.0 r.1) same
        (intern-Interns (as_interner table) s v) in
    record {
      valid = o.valid;
      resolves = o.resolves (table_intern table s).1 refl;
      keeps = o.keeps;
      short = table_intern-short table s;
    }

abbrev pub resolve_service : List Text → Option ℕ → Option (Option Text)
resolve_service strings none = some none
resolve_service strings (some id) = elim (get_elem? strings id) [
  | none ↦ none
  | some s ↦ some (some s)
]

-- What interning the strings of a span promises.
pub record AddsSpan (table : StringTable) (span_name message : Text) (service : Option Text)
    (r : StringTable × ℕ × ℕ × Option ℕ) : Type 0 where
  pub valid : Interner_IsValid (as_interner r.0)
  pub named : get_elem? r.0.strings r.1 ≡ some span_name
  pub described : get_elem? r.0.strings r.2 ≡ some message
  pub served : resolve_service r.0.strings r.3 ≡ some service
  pub keeps :
      (i : ℕ) (u : Text) → get_elem? table.strings i ≡ some u → get_elem? r.0.strings i ≡ some u
  pub short : length r.0.strings ≤ length table.strings + 3

pub intern_span-AddsSpan :
    (table : StringTable) (span_name message : Text) (service : Option Text)
    → Interner_IsValid (as_interner table)
    → length table.strings + 3 ≤ 2 ^ 32
    → AddsSpan table span_name message service (intern_span table span_name message service)
unfolding intern_span intern_service
intern_span-AddsSpan table span_name message none v h =
    let a = table_intern-Adds table span_name v (omega arith) in
    let t1 = (table_intern table span_name).0 in
    let b = table_intern-Adds t1 message a.valid (omega (arith, a.short)) in
    record {
      valid = b.valid;
      named = b.keeps _ span_name a.resolves;
      described = b.resolves;
      served = refl;
      keeps = λ i u e. b.keeps i u (a.keeps i u e);
      short = omega (arith, a.short, b.short);
    }
intern_span-AddsSpan table span_name message (some s) v h =
    let a = table_intern-Adds table span_name v (omega arith) in
    let t1 = (table_intern table span_name).0 in
    let b = table_intern-Adds t1 message a.valid (omega (arith, a.short)) in
    let t2 = (table_intern t1 message).0 in
    let c = table_intern-Adds t2 s b.valid (omega (arith, a.short, b.short)) in
    record {
      valid = c.valid;
      named = c.keeps _ span_name (b.keeps _ span_name a.resolves);
      described = c.keeps _ message b.resolves;
      served =
          ap (λ o. elim o as (λ x. Option (Option Text)) [ none ↦ none | some s ↦ some (some s) ])
            c.resolves;
      keeps = λ i u e. c.keeps i u (b.keeps i u (a.keeps i u e));
      short = omega (arith, a.short, b.short, c.short);
    }
