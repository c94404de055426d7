-- ===== src/Store/View/Growth.antt =====
-- What a row shows does not change when the tables of the store grow.
use spanfall.Prelude.{
  ℕ, ◌+◌, ◌≤◌, ◌≡◌, refl, sym, ap, ◌∙◌, Option, none, some, List, [], ◌∷◌, length, arith, All,
  get_elem?, get_elem?_of_lt, get_elem?_lt, subst,
}
use spanfall.Prelude.Text.{Text}
use spanfall.Types.{AttrValue, TraceId}
use spanfall.Interner.{Interner, intern}
use spanfall.Interner.Bounds.{intern-Interns, intern-some, IsValid as Interner_IsValid}
use spanfall.Trace.{Trace, NewSpan}
use spanfall.Trace.Insert.{intern_attrs}
use spanfall.Trace.Spec.{Row}
use spanfall.Trace.Attrs.{resolved-keeps, grows, All-mono}
use spanfall.Store.{Store, trace, intern_service}
use spanfall.Store.Valid.{
  IdWithin, RowWithin, RowWithin-mono, key_count, service_count, row_service,
}
use spanfall.Store.View.{RowShows, AllShow, TraceShows, ShowsAt, Spare}

-- A table keeps its entries.
abbrev pub Keeps : Interner → Interner → Type 0
Keeps i i' = (id : ℕ) (t : Text) → get_elem? i.values id ≡ some t → get_elem? i'.values id ≡ some t

pub record Grows (s s' : Store) : Type 0 where
  pub keys : Keeps s.key_interner s'.key_interner
  pub services : Keeps s.service_interner s'.service_interner

row_service-Grows :
    (s s' : Store) (o : Option ℕ)
    → Grows s s'
    → IdWithin (service_count s) o
    → row_service s' o ≡ row_service s o
row_service-Grows s s' none g w = refl
row_service-Grows s s' (some id) g w =
    let (t, e) = get_elem?_of_lt s.service_interner.values id w in g.services id t e ∙ sym e

RowShows-Grows :
    (s s' : Store) (r : Row) (x : NewSpan)
    → Grows s s'
    → RowWithin (key_count s) (service_count s) r
    → RowShows s r x
    → RowShows s' r x
RowShows-Grows s s' r x g w h = record {
  span_id = h.span_id;
  parent = h.parent;
  name = h.name;
  start = h.start;
  end = h.end;
  message = h.message;
  code = h.code;
  unknown = h.unknown;
  service = row_service-Grows s s' r.service_name_id g w.service ∙ h.service;
  attributes =
      resolved-keeps s.key_interner s'.key_interner r.attributes g.keys w.attributes ∙ h.attributes;
}

pub AllShow-Grows :
    (s s' : Store) (rows : List Row) (xs : List NewSpan)
    → Grows s s'
    → All (RowWithin (key_count s) (service_count s)) rows
    → AllShow s rows xs
    → AllShow s' rows xs
AllShow-Grows s s' [] [] g w h = tt
AllShow-Grows s s' [] (x ∷ xs) g w h = h
AllShow-Grows s s' (r ∷ rows) [] g w h = h
AllShow-Grows s s' (r ∷ rows) (x ∷ xs) g w h =
    (RowShows-Grows s s' r x g w.0 h.0, AllShow-Grows s s' rows xs g w.1 h.1)

pub RowWithin-Grows :
    (s s' : Store) (rows : List Row)
    → Grows s s'
    → All (RowWithin (key_count s) (service_count s)) rows
    → All (RowWithin (key_count s') (service_count s')) rows
RowWithin-Grows s s' rows g w =
    All-mono rows
      (RowWithin-mono (key_count s) (key_count s') (service_count s) (service_count s')
        (grows s.key_interner.values s'.key_interner.values g.keys)
        (grows s.service_interner.values s'.service_interner.values g.services))
      w

pub TraceShows-Grows :
    (s s' : Store) (t : Trace) (xs : List NewSpan)
    → Grows s s'
    → TraceShows s t xs
    → TraceShows s' t xs
TraceShows-Grows s s' t xs g (rows, ref, within, shows) =
    (rows, ref, RowWithin-Grows s s' rows g within, AllShow-Grows s s' rows xs g within shows)

-- With room the table grows by one entry for each pair at most.
pub length-intern_attrs :
    (i : Interner) (kvs : List (Text × AttrValue))
    → Interner_IsValid i
    → length i.values + length kvs ≤ i.cap
    → length (intern_attrs i kvs).0.values ≤ length i.values + length kvs
unfolding intern_attrs
length-intern_attrs i [] v room = omega arith
length-intern_attrs i ((k, a) ∷ kvs) v room =
    let o = intern-Interns i k v in
    let (id, kept, small) = intern-some i k v (omega arith) in
    omega (
      arith,
      small,
      o.cap_kept,
      length-intern_attrs (intern i k).0 kvs o.valid (omega (arith, o.cap_kept)),
    )

-- With room for it the name of a service is not refused.
pub record NamesService (i : Interner) (name : Option Text) (i' : Interner) (r : Option ℕ)
    : Type 0 where
  pub keeps : Keeps i i'
  pub cap_kept : i'.cap ≡ i.cap
  pub more : length i'.values ≤ length i.values + 1
  pub within : IdWithin (length i'.values) r
  pub resolves : (s : Store) → s.service_interner ≡ i' → row_service s r ≡ name

pub intern_service-NamesService :
    (i : Interner) (name : Option Text)
    → Interner_IsValid i
    → length i.values + 1 ≤ i.cap
    → NamesService i name (intern_service i name).0 (intern_service i name).1
unfolding intern_service
intern_service-NamesService i none v room = record {
  keeps = λ id t h. h;
  cap_kept = refl;
  more = omega arith;
  within = tt;
  resolves = λ s e. refl;
}
intern_service-NamesService i (some t) v room =
    let o = intern-Interns i t v in
    let (id, kept, small) = intern-some i t v (omega arith) in
    record {
      keeps = o.keeps;
      cap_kept = o.cap_kept;
      more = omega (arith, small);
      within = rw kept (get_elem?_lt (intern i t).0.values id (o.resolves id kept));
      resolves = λ s e. rw kept (ap (λ i. get_elem? i.values id) e ∙ o.resolves id kept);
    }

-- A trace that both stores have alike shows the same.
pub ShowsAt-Grows :
    (s s' : Store) (j : TraceId) (o : Option (List NewSpan))
    → Grows s s'
    → trace s' j ≡ trace s j
    → ShowsAt s j o
    → ShowsAt s' j o
ShowsAt-Grows s s' j none g e h = e ∙ h
ShowsAt-Grows s s' j (some xs) g e (t, found, shows) =
    (t, e ∙ found, TraceShows-Grows s s' t xs g shows)

pub Spare-same :
    (s s' : Store) (k l : ℕ)
    → s'.key_interner ≡ s.key_interner
    → s'.service_interner ≡ s.service_interner
    → Spare s k l
    → Spare s' k l
Spare-same s s' k l e f spare = record {
  keys = subst (λ i. length i.values + k ≤ i.cap) (sym e) spare.keys;
  services = subst (λ i. length i.values + l ≤ i.cap) (sym f) spare.services;
}
