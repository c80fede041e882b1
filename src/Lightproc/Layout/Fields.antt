-- ===== src/Lightproc/Layout/Fields.antt =====
-- The fields of a process in its memory.
use fabaccess_server.Prelude.{
  ℕ, ◌+◌, ◌-◌, ◌*◌, ◌/◌, ◌^◌, ◌≤◌, ◌≡◌, refl, sym, subst, ◌∙◌, arith, Bool, true, false, leb,
  if◌then◌else◌, Option, none, some,
}
use Prim.Native.Nat.{max}
use fabaccess_server.Lightproc.Layout.Multiples.{
  IsMultiple, IsMultiple-trans, IsMultiple-add, max_left, max_right,
}
use fabaccess_server.Lightproc.Layout.{
  Layout, extend, ProcLayout, layout_union, proc_layout, RawProc, from_ptr, ◌>>=◌,
}
use fabaccess_server.Lightproc.Layout.Padding.{round_up, round_up_lem}
use fabaccess_server.Lightproc.Layout.Extend.{
  IsPower, IsLayout, IsPower-bounds, max-IsPower, extend_lem,
}

-- `offset` is a multiple of the alignment and the field lies between two addresses.
pub record IsPlaced (offset from to : ℕ) (l : Layout) : Type 0 where
  pub aligned : IsMultiple l.align offset
  pub after : from ≤ offset
  pub inside : offset + l.size ≤ to

rounded : (n a : ℕ) → round_up n a ≡ (n + a - 1) / a * a
unfolding round_up
rounded n a = refl

chosen :
    {A : Type 0} (b : Bool) (x r : A) → (if b then some x else none) ≡ some r → (b ≡ true) × (x ≡ r)
chosen true x r h = (refl, cc)
chosen false x r h = (cc, cc)

-- The layout and the offset that `extend` computes where the whole fits.
placed :
    (l next : Layout)
    → IsLayout l
    → IsPower next.align
    → leb (round_up l.size next.align + next.size + max l.align next.align) (2 ^ 63) ≡ true
    → IsLayout
        (record { size = round_up l.size next.align + next.size; align = max l.align next.align })
      × IsPlaced (round_up l.size next.align) l.size (round_up l.size next.align + next.size) next
placed l next v w h =
    let (some_bytes, _) = IsPower-bounds next.align w in
    let (up, _) = round_up_lem l.size next.align some_bytes in
    let fits : round_up l.size next.align + next.size + max l.align next.align ≤ 2 ^ 63 =
      ground (arith, h) in
    (
      record { is_power = max-IsPower l.align next.align v.is_power w; fits = fits },
      record {
        aligned = ((l.size + next.align - 1) / next.align, rounded l.size next.align);
        after = up;
        inside = omega arith;
      },
    )

extends :
    (l next : Layout) (r : Layout × ℕ)
    → IsLayout l
    → IsPower next.align
    → extend l next ≡ some r
    → IsLayout r.0 × IsPlaced r.1 l.size r.0.size next × (r.0.align ≡ max l.align next.align)
extends l next r v w h =
    let (b, same) = chosen _ _ r (sym (extend_lem l next v w) ∙ h) in
    subst
      (λ (s : Layout × ℕ).
        IsLayout s.0 × IsPlaced s.1 l.size s.0.size next × (s.0.align ≡ max l.align next.align))
      same (let (is_layout, is_placed) = placed l next v w b in (is_layout, is_placed, refl))

-- Each field of a process lies on a multiple of its alignment: the process data first, then the
-- schedule function, then the future or its output, before the end of the memory.
pub record HasFields (raw : RawProc) (p : ProcLayout) (pdata schedule future output : Layout)
    : Type 0 where
  pub pdata_placed : IsPlaced raw.pdata raw.pdata raw.schedule pdata
  pub schedule_placed : IsPlaced raw.schedule (raw.pdata + pdata.size) raw.future schedule
  pub future_placed :
      IsPlaced raw.future (raw.schedule + schedule.size) (raw.pdata + p.layout.size) future
  pub output_placed :
      IsPlaced raw.output (raw.schedule + schedule.size) (raw.pdata + p.layout.size) output

some_injective : {A : Type 0} {a b : A} → some a ≡ some b → a ≡ b
some_injective h = cc

bound :
    {A B : Type 0} (m : Option A) (f : A → Option B) (b : B)
    → (m >>= f) ≡ some b
    → (a : A) × (m ≡ some a) × (f a ≡ some b)
bound none f b h = absurd cc
bound (some a) f b h = (a, refl, h)

union_left :
    (o from to : ℕ) (future output : Layout)
    → IsPower future.align
    → IsPower output.align
    → IsPlaced o from to (layout_union future output)
    → IsPlaced o from to future
unfolding layout_union
union_left o from to future output x y placed = record {
  aligned = IsMultiple-trans _ _ _ (max_left future.align output.align x y) placed.aligned;
  after = placed.after;
  inside = omega (arith, placed.inside);
}

union_right :
    (o from to : ℕ) (future output : Layout)
    → IsPower future.align
    → IsPower output.align
    → IsPlaced o from to (layout_union future output)
    → IsPlaced o from to output
unfolding layout_union
union_right o from to future output x y placed = record {
  aligned = IsMultiple-trans _ _ _ (max_right future.align output.align x y) placed.aligned;
  after = placed.after;
  inside = omega (arith, placed.inside);
}

-- At an address that is a multiple of an alignment which covers the field's.
moved :
    (base a o from to : ℕ) (l : Layout)
    → IsMultiple l.align a
    → IsMultiple a base
    → IsPlaced o from to l
    → IsPlaced (base + o) (base + from) (base + to) l
moved base a o from to l h k placed = record {
  aligned = IsMultiple-add l.align base o (IsMultiple-trans l.align a base h k) placed.aligned;
  after = omega (arith, placed.after);
  inside = omega (arith, placed.inside);
}

widen :
    (o from to from' to' : ℕ) (l : Layout)
    → from' ≤ from
    → to ≤ to'
    → IsPlaced o from to l
    → IsPlaced o from' to' l
widen o from to from' to' l h k placed = record {
  aligned = placed.aligned;
  after = omega (arith, placed.after);
  inside = omega (arith, placed.inside);
}

-- The fields from the two layouts that are extended; `at` is the offset of the union.
fields :
    (pdata schedule future output first whole : Layout) (offset at base : ℕ)
    → IsPower pdata.align
    → IsPower schedule.align
    → IsPower future.align
    → IsPower output.align
    → first.align ≡ max pdata.align schedule.align
    → IsPlaced offset pdata.size first.size schedule
    → whole.align ≡ max first.align (max future.align output.align)
    → IsPlaced at first.size whole.size (layout_union future output)
    → IsMultiple whole.align base
    → HasFields
        (from_ptr
          (record {
            layout = whole;
            offset_schedule = offset;
            offset_future = at;
            offset_output = at;
          })
          base)
        (record {
          layout = whole;
          offset_schedule = offset;
          offset_future = at;
          offset_output = at;
        })
        pdata
        schedule
        future
        output
unfolding from_ptr
fields pdata schedule future output first whole offset at base v w x y e placed e' placed' k =
    let first_power = subst IsPower (sym e) (max-IsPower pdata.align schedule.align v w) in
    let union_power = max-IsPower future.align output.align x y in
    let first_covers =
      subst (IsMultiple first.align) (sym e') (max_left first.align _ first_power union_power) in
    let union_covers =
      subst (IsMultiple _) (sym e') (max_right first.align _ first_power union_power) in
    let pdata_covers =
      IsMultiple-trans pdata.align first.align whole.align
        (subst (IsMultiple pdata.align) (sym e) (max_left pdata.align schedule.align v w))
        first_covers in
    let schedule_covers =
      IsMultiple-trans schedule.align first.align whole.align
        (subst (IsMultiple schedule.align) (sym e) (max_right pdata.align schedule.align v w))
        first_covers in
    let left = IsMultiple-trans _ _ _ (max_left future.align output.align x y) union_covers in
    let right = IsMultiple-trans _ _ _ (max_right future.align output.align x y) union_covers in
    let schedule_at = moved base whole.align _ _ _ schedule schedule_covers k placed in
    let future_at =
      moved base whole.align _ _ _ future left k (union_left _ _ _ future output x y placed') in
    let output_at =
      moved base whole.align _ _ _ output right k (union_right _ _ _ future output x y placed') in
    record {
      pdata_placed = record {
        aligned = IsMultiple-trans pdata.align whole.align base pdata_covers k;
        after = omega arith;
        inside = omega (arith, placed.after);
      };
      schedule_placed =
          widen _ _ _ _ _ schedule (omega arith) (omega (arith, placed'.after)) schedule_at;
      future_placed = widen _ _ _ _ _ future (omega (arith, placed.inside)) (omega arith) future_at;
      output_placed = widen _ _ _ _ _ output (omega (arith, placed.inside)) (omega arith) output_at;
    }

-- When the memory layout of a process is computed from valid layouts without a panic, it is a
-- valid layout, and at an address that is a multiple of its alignment each field lies on a
-- multiple of its own alignment: the process data, behind them the schedule function, and behind
-- that the future or its output, none of which overlaps the one before or reaches past the end.
pub from_ptr-HasFields :
    (pdata schedule future output : Layout) (p : ProcLayout) (base : ℕ)
    → IsLayout pdata
    → IsLayout schedule
    → IsLayout future
    → IsLayout output
    → proc_layout pdata schedule future output ≡ some p
    → IsMultiple p.layout.align base
    → IsLayout p.layout × HasFields (from_ptr p base) p pdata schedule future output
unfolding proc_layout layout_union
from_ptr-HasFields pdata schedule future output p base v w x y h k =
    let ((first, offset), extended, more) = bound (extend pdata schedule) _ p h in
    let ((whole, at), extended', same) =
      bound (extend first (layout_union future output)) _ p more in
    let (v', placed, aligned) = extends pdata schedule (first, offset) v w.is_power extended in
    let union_power = max-IsPower future.align output.align x.is_power y.is_power in
    let (v'', placed', aligned') =
      extends first (layout_union future output) (whole, at) v' union_power extended' in
    subst
      (λ (q : ProcLayout).
        IsMultiple q.layout.align base
        → IsLayout q.layout × HasFields (from_ptr q base) q pdata schedule future output)
      (some_injective same)
      (λ k'. (
        v'',
        fields pdata schedule future output first whole offset at base v.is_power w.is_power
            x.is_power y.is_power aligned placed aligned' placed' k',
      ))
      k
