-- ===== src/Vm/Execute/Examples.antt =====
-- A CPU at its start, with one page for each segment.
use vanadium.Prelude.{ℕ, ◌+◌, ◌*◌, ◌^◌, ◌≡◌, ◌⊎◌, ◌∷◌, refl, none, some, ok, arith, replicate}
use vanadium.Vm.Memory.{vec_memory, new_vec_memory}
use vanadium.Vm.Segment.{Segment}
use vanadium.Vm.Arm.{State}
use vanadium.Vm.Execute.{execute, Handler}
use vanadium.Vm.Execute.Registers.{IsWellFormed, IsAllowed, execute-IsWellFormed}
use vanadium.Vm.Execute.Arithmetic.{AreRegisters, result, execute-mul, execute-div}
use vanadium.Vm.Alu.Division.{IsByZero, IsQuotient, IsSignedQuotient}
use vanadium.Riscv.Op.{Op}
use vanadium.Vm.Cpu.{reg}
use vanadium.Vm.Execute.Errors.{IsClean, execute-IsClean}

abbrev page_at : ℕ → Segment vec_memory
unfolding vec_memory
page_at start = record { start_address = start; size = 0x100; paged_memory = new_vec_memory 1 }

abbrev cpu : State vec_memory (Unit {0})
cpu = record {
  pc = 0x1000;
  regs = replicate 32 0;
  code_seg = page_at 0x1000;
  data_seg = page_at 0x2000;
  stack_seg = page_at 0x3000;
  reservation_addr = none;
}

cpu-IsWellFormed : IsWellFormed cpu
cpu-IsWellFormed = record {
  has_registers = refl;
  zero_register = refl;
  even_pc = refl;
  pc_fits = omega arith;
}

-- A handler that leaves the CPU alone.
abbrev quiet : Handler vec_memory (Unit {0}) (Unit {0})
quiet c h = (ok tt, c, h)

quiet-IsAllowed : IsAllowed vec_memory (Unit {0}) (some quiet)
quiet-IsAllowed = record { keeps = λ c h w. w }

-- ecall
execute-IsWellFormed_example :
    IsWellFormed (execute vec_memory (Unit {0}) 0x73 (some quiet) cpu tt).1
execute-IsWellFormed_example =
    execute-IsWellFormed vec_memory (Unit {0}) 0x73 (some quiet) cpu tt (omega arith)
      quiet-IsAllowed cpu-IsWellFormed

-- lw x1, 0(x0): no segment has the address 0
execute-IsClean_example :
    IsClean vec_memory (Unit {0}) cpu tt (execute vec_memory (Unit {0}) 0x2083 (some quiet) cpu tt)
execute-IsClean_example =
    execute-IsClean vec_memory (Unit {0}) 0x2083 (some quiet) cpu tt (omega arith) cpu-IsWellFormed

-- -2^31 in x1 and -1 in x2, with a result in x3.
abbrev operands : State vec_memory (Unit {0})
operands = record cpu { regs = 0 ∷ 0x80000000 ∷ 0xffffffff ∷ replicate 29 0 }

three_registers : AreRegisters 3 1 2
three_registers = record {
  not_zero = omega arith;
  rd_small = omega arith;
  rs1_small = omega arith;
  rs2_small = omega arith;
}

abbrev x3 : Op → ℕ
x3 = result vec_memory (Unit {0}) (some quiet) operands tt 3

execute-mul_example :
    x3 (Op.mulhu 3 1 2) * 2 ^ 32 + x3 (Op.mul 3 1 2) ≡ reg operands 1 * reg operands 2
execute-mul_example =
    execute-mul vec_memory (Unit {0}) (some quiet) operands tt 3 1 2 three_registers refl
      (omega arith) (omega arith)

execute-div_example :
    (IsByZero (reg operands 1) (reg operands 2) (x3 (Op.div 3 1 2)) (x3 (Op.rem 3 1 2))
      ⊎ IsSignedQuotient (reg operands 1) (reg operands 2) (x3 (Op.div 3 1 2)) (x3 (Op.rem 3 1 2)))
    × (IsByZero (reg operands 1) (reg operands 2) (x3 (Op.divu 3 1 2)) (x3 (Op.remu 3 1 2))
        ⊎ IsQuotient (reg operands 1) (reg operands 2) (x3 (Op.divu 3 1 2)) (x3 (Op.remu 3 1 2)))
execute-div_example =
    execute-div vec_memory (Unit {0}) (some quiet) operands tt 3 1 2 three_registers refl
      (omega arith) (omega arith)
