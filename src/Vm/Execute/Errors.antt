-- ===== src/Vm/Execute/Errors.antt =====
-- The errors of `Cpu::execute` of common/src/vm.rs.
use vanadium.Prelude.{ℕ, ◌≡◌, ◌%◌, refl, Option, some, Outcome, ok, err, panic}
use vanadium.Word.{IsU32}
use vanadium.Vm.Error.{CpuError}
use vanadium.Vm.Memory.{PagedMemory}
use vanadium.Vm.Cpu.Quiet.{IsUntouched}
use vanadium.Vm.Arm.{State}
use vanadium.Vm.Arm.Effect.{IsDone}
use vanadium.Vm.Execute.{execute_op, execute, finish, dispatch, call_handler, Handler}
use vanadium.Vm.Execute.Registers.{IsWellFormed, execute_op-Ends}
use vanadium.Riscv.Op.{Op}
use vanadium.Riscv.Decode.{decode}
use vanadium.Riscv.Decode.Jumps.{EvenOffset, decode-HasEvenOffset}

module _ (P : PagedMemory) (E : Type 0) where
  -- An error that does not come from the handler leaves the registers, the program counter, the
  -- reservation and the state of the handler alone; a panic can only come from it, or from a page.
  pub IsClean :
      {H : Type 0} → State P E → H → Outcome (CpuError E) (Unit {0}) × State P E × H → Type 0
  IsClean c0 h0 (ok u, c, h) = Unit
  IsClean c0 h0 (err (CpuError.ecall_error e), c, h) = Unit
  IsClean c0 h0 (err (CpuError.memory_error e), c, h) = IsUntouched c0 c × (h ≡ h0)
  IsClean c0 h0 (err (CpuError.generic_error e), c, h) = IsUntouched c0 c × (h ≡ h0)
  IsClean c0 h0 (panic, c, h) = Unit

  module _ (cpu : State P E) (w : IsWellFormed cpu) (size : ℕ) (even_size : size % 2 ≡ 0)
      {H : Type 0} (h : H) where
    finish-IsClean :
        (r : Outcome (CpuError E) ℕ × State P E)
        → IsDone cpu r
        → IsClean cpu h (finish P E (r.0, r.1, h))
    unfolding finish IsClean
    finish-IsClean (ok inc, c) d = tt
    finish-IsClean (err (CpuError.ecall_error e), c) d = tt
    finish-IsClean (err (CpuError.memory_error e), c) d = (d, refl)
    finish-IsClean (err (CpuError.generic_error e), c) d = (d, refl)
    finish-IsClean (panic, c) d = tt

    handled :
        (r : Outcome E (Unit {0}) × State P E × H)
        → IsClean cpu h (finish P E (call_handler P E size (λ c h. r) cpu h))
    unfolding call_handler finish IsClean
    handled (ok u, c, h) = tt
    handled (err e, c, h) = tt
    handled (panic, c, h) = tt

    dispatch-IsClean :
        (op : Op) (handler : Option (Handler P E H))
        → EvenOffset op
        → IsClean cpu h (finish P E (dispatch P E op size handler cpu h))
    unfolding dispatch call_handler
    dispatch-IsClean Op.ecall (some handle_ecall) e = handled (handle_ecall cpu h)
    dispatch-IsClean op handler e =
        finish-IsClean (execute_op P E op size cpu)
          (execute_op-Ends P E cpu size w.even_pc w.pc_fits even_size op e).at

  -- An instruction that ends in a memory error or a generic error leaves the registers, the program
  -- counter, the reservation and the state of the handler as they were, in a well-formed CPU.
  pub execute-IsClean :
      {H : Type 0} (inst : ℕ) (handler : Option (Handler P E H)) (cpu : State P E) (h : H)
      → IsU32 inst
      → IsWellFormed cpu
      → IsClean cpu h (execute P E inst handler cpu h)
  unfolding execute
  execute-IsClean inst handler cpu h i w =
      let (e, even) = decode-HasEvenOffset inst i in
      dispatch-IsClean cpu w (decode inst).1 even h (decode inst).0 handler e.at
