-- ===== src/Examples/Layouts.antt =====
-- The memory of a process whose future has 40 bytes and whose output has one, runtime/lightproc.
use fabaccess_server.Prelude.{◌+◌, ◌^◌, ◌≡◌, refl, leb, if◌then◌else◌, some, none, arith}
use Prim.Native.Nat.{max}
use fabaccess_server.Lightproc.Layout.{
  Layout, wrapping_add, wrapping_sub, complement, checked_add, is_power_of_two, from_size_align,
  padding_needed_for, extend, layout_union, ProcLayout, proc_layout, from_ptr,
}
use fabaccess_server.Lightproc.Layout.Padding.{round_up}
use fabaccess_server.Lightproc.Layout.Extend.{IsPower, IsLayout, extend_lem}
use fabaccess_server.Lightproc.Layout.Fields.{HasFields, from_ptr-HasFields}

abbrev pdata_layout : Layout
pdata_layout = record { size = 72; align = 8 }

abbrev schedule_layout : Layout
schedule_layout = record { size = 1; align = 1 }

abbrev future_layout : Layout
future_layout = record { size = 40; align = 16 }

abbrev output_layout : Layout
output_layout = record { size = 1; align = 1 }

abbrev layout_of_process : ProcLayout
layout_of_process = record {
  layout = record { size = 120; align = 16 };
  offset_schedule = 72;
  offset_future = 80;
  offset_output = 80;
}

one_IsPower : IsPower 1
one_IsPower = record { exponent = 0; rest = 63; sum = refl; power = refl }

pdata_IsLayout : IsLayout pdata_layout
pdata_IsLayout = record {
  is_power = record { exponent = 3; rest = 60; sum = refl; power = refl };
  fits = omega arith;
}

schedule_IsLayout : IsLayout schedule_layout
schedule_IsLayout = record { is_power = one_IsPower; fits = omega arith }

future_IsLayout : IsLayout future_layout
future_IsLayout = record {
  is_power = record { exponent = 4; rest = 59; sum = refl; power = refl };
  fits = omega arith;
}

output_IsLayout : IsLayout output_layout
output_IsLayout = record { is_power = one_IsPower; fits = omega arith }

laid_out :
    proc_layout pdata_layout schedule_layout future_layout output_layout ≡ some layout_of_process
unfolding proc_layout extend checked_add padding_needed_for wrapping_sub wrapping_add complement
    from_size_align is_power_of_two layout_union
laid_out = refl

extend_lem_example : extend pdata_layout future_layout ≡ (
    let offset = round_up 72 16 in
    if leb (offset + 40 + max 8 16) (2 ^ 63)
    then some (record { size = offset + 40; align = max 8 16 }, offset)
    else none)
extend_lem_example = extend_lem pdata_layout future_layout pdata_IsLayout future_IsLayout.is_power

from_ptr-HasFields_example :
    IsLayout layout_of_process.layout
    × HasFields
        (from_ptr layout_of_process 4096)
        layout_of_process
        pdata_layout
        schedule_layout
        future_layout
        output_layout
from_ptr-HasFields_example =
    from_ptr-HasFields pdata_layout schedule_layout future_layout output_layout layout_of_process
      4096 pdata_IsLayout schedule_IsLayout future_IsLayout output_IsLayout laid_out (256, refl)
