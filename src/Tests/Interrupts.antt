-- ===== src/Tests/Interrupts.antt =====
-- A clock after one second, the line 12 of the mouse, and the vectors of the keyboard and of a page
-- fault, on a machine whose interrupt controllers were just programmed.
use orin_os.Prelude.Ports.{Trace, Device}
use orin_os.Keyboard.Ring.{empty}
use orin_os.Interrupts.Pic.{Unmasked}
use orin_os.Interrupts.Pic.Ports.{Pics, at_reset, remap, unmask_line}
use orin_os.Interrupts.Pic.Chip.{Chip, ready}
use orin_os.Interrupts.Pic.Mirrored.{Programmed, remap-Programmed, Lines, unmask_line-Lines}
use orin_os.Interrupts.Pic.Acknowledge.{Acknowledges, end_of_interrupt-Acknowledges}
use orin_os.Cpu.{features, no_result}
use orin_os.Cpu.Regs.{Frame}
use orin_os.Interrupts.Idt.{Machine, Table, Gate, Filler, plain, on_page_fault}
use orin_os.Interrupts.Idt.Table.{init-described}
use orin_os.Interrupts.Idt.Handlers.{Event, resumes, dies, handle}
use orin_os.Interrupts.Idt.Lines.{IsMachine, HasRoom, Served, handle-Served}
use orin_os.Interrupts.Idt.PageFault.{some_line, breaks_down, speaks_of_selector, page_fault_report}
use orin_os.Interrupts.Idt.Report.{Line}
use orin_os.Tests.Machine.{registers, no_counts}
use orin_os.Prelude.{
  if◌then◌else◌, some, none, ◌==◌, List, [], false, none, refl, replicate, ◌+◌, ◌*◌, ◌/◌, ◌≤◌, ◌≡◌,
  true, ok, arith,
}
use orin_os.Interrupts.Pic.{Unmasked}
use orin_os.Interrupts.Pit.{Clock, tick, micros_since_boot, micros_since_boot-exact}

abbrev second : Clock
second = record { enabled = true; ticks = 1000 }

micros_since_boot-exact_example :
    (micros_since_boot (record { enabled = true; ticks = 1000 }) ≡ 1000 * 1193000000 / 1193182)
    × (micros_since_boot (record { enabled = true; ticks = 1000 }) + 999
        ≤ micros_since_boot (tick (record { enabled = true; ticks = 1000 })))
    × (micros_since_boot (tick (record { enabled = true; ticks = 1000 }))
        ≤ micros_since_boot (record { enabled = true; ticks = 1000 }) + 1000)
micros_since_boot-exact_example = micros_since_boot-exact 1000 (omega arith)

-- The chips before `remap`, and ports that answer a read with a full output buffer of the keyboard.
abbrev cold : Chip
cold = record {
  stage = ready;
  base = 8;
  wires = 0;
  mode_word = 0;
  mask_register = 0;
  acknowledged = 0;
}

abbrev ports : Device
ports t port = 0x21

remap-Programmed_example : Programmed cold (remap ports [] at_reset).0 (remap ports [] at_reset).1
remap-Programmed_example = remap-Programmed cold ports [] at_reset

abbrev programmed : Trace × Pics
programmed = remap ports [] at_reset

unmask_line-Lines_example :
    Lines cold (Unmasked programmed.1.masks 12) (unmask_line 12 programmed.0 programmed.1)
unmask_line-Lines_example =
    unmask_line-Lines cold 12 programmed.0 programmed.1 (omega arith)
      (remap-Programmed cold ports [] at_reset).mirrored

end_of_interrupt-Acknowledges_example : Acknowledges cold programmed.0 0x2C
end_of_interrupt-Acknowledges_example = end_of_interrupt-Acknowledges cold programmed.0 0x2C

abbrev machine : Machine
machine = record {
  tally = no_counts;
  clock = second;
  ring = empty;
  pics = programmed.1;
  ports = programmed.0;
  debugger = false;
}

machine-IsMachine : IsMachine cold machine
machine-IsMachine = record {
  ring = record {
    size = unfold empty replicate in refl;
    head_in = unfold empty in omega arith;
    tail_in = unfold empty in omega arith;
  };
  mirrored = (remap-Programmed cold ports [] at_reset).mirrored;
}

no_counts-HasRoom : HasRoom no_counts
no_counts-HasRoom = record {
  timer_room = omega arith;
  key_room = omega arith;
  unassigned_room = omega arith;
}

abbrev interrupted : Frame
interrupted = record {
  instruction_pointer = 0xFFFFFFFF80101000;
  stack_pointer = 0xFFFFFFFF8020F000;
  cpu_flags = 0x202;
  code_segment = 8;
  stack_segment = 16;
}

-- A write to address 8 of a page that is not present.
abbrev event : Event
event = record {
  feats = features (λ leaf subleaf. no_result) none;
  now = registers;
  cr2 = 8;
  device = ports;
  boot_top = 0xFFFFFFFF80208000;
  kern_top = 0xFFFFFFFF80210000;
  frame = interrupted;
  code = 2;
}

-- A macro that fills every vector but the reserved 15.
abbrev fill : Filler
fill h v = if v == 15 then none else some (plain h)

abbrev installed : Table
installed = (init-described fill).0

handle-Served_example :
    (g : Gate) × (installed (0x20 + 1) ≡ some g)
    × ((m1 : Machine) × (handle g.handler event machine ≡ ok (resumes m1))
        × Served cold 1 machine m1)
handle-Served_example =
    handle-Served cold machine machine-IsMachine no_counts-HasRoom fill installed event 1
      (init-described fill).1 (omega arith)

page_fault_report_example :
    (m1 : Machine) × (lines : List Line) × (handle on_page_fault event machine ≡ ok (dies m1 lines))
    × (some_line breaks_down lines ≡ false)
    × (some_line speaks_of_selector lines ≡ true)
page_fault_report_example = page_fault_report event machine (omega arith)
