-- ===== src/Cpu/Laws/Transfers.antt =====
-- The loads and stores as instructions.
use psprism.Base.{some_lem, none_lem, ℕ, ◌≡◌, refl, subst, sym, ◌∙◌, arith, bit_and, Bool}
use psprism.Base.{true, false, Option, none, some, Option-cases, Bool-cases, inl, inr, ◌==◌}
use psprism.Base.{◌&&◌, if◌then◌else◌, leb, sign_extend16, List}
use psprism.Decoder.Instruction.{DecodedInstruction}
use psprism.Decoder.Decode.{plain_name}
use Prim.Native.String.{String}
use psprism.Cpu.State.{State, set_gpr, set_fpr}
use psprism.Cpu.Memory.{
  Region, Pointer, main, scratch, video, volatile, put_region, bytes_of, write_bytes, load, store,
  mapped_address,
}
use psprism.Cpu.Memory.{
  note_memory_fault, write_at, load_word_left, load_word_right, store_word_left,
}
use psprism.Cpu.Memory.{store_word_right, fast_test, main_offset, is_aligned}
use psprism.Cpu.Execute.Transfer.{exec_transfer, into_rt, ◌>>=◌}
use psprism.Cpu.Bitwise.{sign_extend8}
use psprism.Cpu.Laws.Support.{IsSupported, IsSequential}

abbrev pub IsPlain : State → State → Type 0
IsPlain s s' = IsSupported s' × IsSequential s s'

module _ (s : State) (ok : IsSupported s) where
  note_memory_fault-IsPlain : (address : ℕ) → IsPlain s (note_memory_fault s address)
  unfolding note_memory_fault
  note_memory_fault-IsPlain address = (λ e. cc, (refl, refl))

  put_region-IsPlain : (region : Region) (bytes : List ℕ) → IsPlain s (put_region s region bytes)
  put_region-IsPlain main bytes = (ok, (refl, refl))
  put_region-IsPlain scratch bytes = (ok, (refl, refl))
  put_region-IsPlain video bytes = (ok, (refl, refl))
  put_region-IsPlain volatile bytes = (ok, (refl, refl))

  write_at-IsPlain :
      (p : Pointer) (width value : ℕ) {s' : State}
      → write_at s p width value ≡ some s'
      → IsPlain s s'
  unfolding write_at
  write_at-IsPlain p width value h = elim (Option-cases (bytes_of s p.region)) [
    | inl e ↦ absurd (none_lem (sym (rw (e, write_at) refl) ∙ h))
    | inr (bytes, e) ↦ elim (Option-cases (write_bytes width bytes p.at value)) [
      | inl f ↦ absurd (none_lem (sym (rw (e, write_at) (rw f refl)) ∙ h))
      | inr (bytes', f) ↦
          subst (IsPlain s) {x = put_region s p.region bytes'}
            (some_lem (sym (rw (e, write_at) (rw f refl)) ∙ h)) (put_region-IsPlain p.region bytes')
    ]
  ]

  load-IsPlain :
      (width address value : ℕ) {s' : State}
      → load width s address ≡ some (value, s')
      → IsPlain s s'
  unfolding load
  load-IsPlain width address value h = ground (arith, note_memory_fault-IsPlain address)

  load_word_left-IsPlain :
      (address old value : ℕ) {s' : State}
      → load_word_left s address old ≡ some (value, s')
      → IsPlain s s'
  unfolding load_word_left
  load_word_left-IsPlain address old value h =
      ground (arith, note_memory_fault-IsPlain (bit_and address 0xfffffffc))

  load_word_right-IsPlain :
      (address old value : ℕ) {s' : State}
      → load_word_right s address old ≡ some (value, s')
      → IsPlain s s'
  unfolding load_word_right
  load_word_right-IsPlain address old value h = ground (arith, note_memory_fault-IsPlain address)

  -- The end of every store: a write where the address is mapped, else a fault.
  write_or_fault-IsPlain :
      (m : Option Pointer) (width value address : ℕ) {s' : State}
      → (elim m [ some p ↦ write_at s p width value | none ↦ some (note_memory_fault s address) ])
        ≡ some s'
      → IsPlain s s'
  write_or_fault-IsPlain none width value address h =
      subst (IsPlain s) (some_lem h) (note_memory_fault-IsPlain address)
  write_or_fault-IsPlain (some p) width value address h = write_at-IsPlain p width value h

  store-IsPlain :
      (width address value : ℕ) {s' : State} → store width s address value ≡ some s' → IsPlain s s'
  unfolding store
  store-IsPlain width address value h =
      elim (Bool-cases
        (fast_test s.memory (main_offset s address) width && is_aligned address width)) [
          | inl e ↦
              write_at-IsPlain (record { region = main; at = main_offset s address }) width value
                (sym (rw (e, store) refl) ∙ h)
          | inr e ↦ elim (Bool-cases (is_aligned address width)) [
            | inl a ↦
                write_or_fault-IsPlain (mapped_address s address width) width value address
                  (sym (rw (e, store) (rw a refl)) ∙ h)
            | inr a ↦
                subst (IsPlain s) {x = note_memory_fault s address}
                  (some_lem (sym (rw (e, store) (rw a refl)) ∙ h))
                  (note_memory_fault-IsPlain address)
          ]
        ]

  store_word_left-IsPlain :
      (address value : ℕ) {s' : State} → store_word_left s address value ≡ some s' → IsPlain s s'
  unfolding store_word_left
  store_word_left-IsPlain address value h = write_or_fault-IsPlain _ _ _ _ h

  store_word_right-IsPlain :
      (address value : ℕ) {s' : State} → store_word_right s address value ≡ some s' → IsPlain s s'
  unfolding store_word_right
  store_word_right-IsPlain address value h = write_or_fault-IsPlain _ _ _ _ h

  into_rt-IsPlain :
      (d : DecodedInstruction) (convert : ℕ → ℕ) (m : Option (ℕ × State)) {s' : State}
      → ((value : ℕ) (s1 : State) → m ≡ some (value, s1) → IsPlain s s1)
      → into_rt d convert m ≡ some s'
      → IsPlain s s'
  into_rt-IsPlain d convert none plain h = absurd (none_lem h)
  into_rt-IsPlain d convert (some (value, s1)) plain h =
      subst (IsPlain s) {x = set_gpr s1 d.rt (convert value)} (some_lem h) (plain value s1 refl)

  loaded-IsPlain :
      (d : DecodedInstruction) (convert : ℕ → ℕ) (width address : ℕ) {s' : State}
      → into_rt d convert (load width s address) ≡ some s'
      → IsPlain s s'
  loaded-IsPlain d convert width address h =
      into_rt-IsPlain d convert (load width s address) (λ v s1 e. load-IsPlain width address v e) h

  lwc1-IsPlain :
      (d : DecodedInstruction) (m : Option (ℕ × State)) {s' : State}
      → ((value : ℕ) (s1 : State) → m ≡ some (value, s1) → IsPlain s s1)
      → (m >>= λ (value, s1). some (set_fpr s1 d.rt value)) ≡ some s'
      → IsPlain s s'
  lwc1-IsPlain d none plain h = absurd (none_lem h)
  lwc1-IsPlain d (some (value, s1)) plain h =
      subst (IsPlain s) {x = set_fpr s1 d.rt value} (some_lem h) (plain value s1 refl)

  sc-IsPlain :
      (d : DecodedInstruction) (m : Option State) {s' : State}
      → ((s1 : State) → m ≡ some s1 → IsPlain s s1)
      → (m >>= λ s1. some (set_gpr s1 d.rt 1)) ≡ some s'
      → IsPlain s s'
  sc-IsPlain d none plain h = absurd (none_lem h)
  sc-IsPlain d (some s1) plain h =
      subst (IsPlain s) {x = set_gpr s1 d.rt 1} (some_lem h) (plain s1 refl)

  case :
      (b : Bool) {x y : Option State} {s' : State}
      → (x ≡ some s' → IsPlain s s')
      → (b ≡ false → y ≡ some s' → IsPlain s s')
      → (if b then x else y) ≡ some s'
      → IsPlain s s'
  case true f g h = f h
  case false f g h = g refl h

  -- A load or store that the decoder has a name for is executed, and control goes on in order.
  pub exec_transfer-IsPlain :
      (d : DecodedInstruction) (address current_pc : ℕ) {name : String} {s' : State}
      → plain_name d.op ≡ some name
      → leb 0x20 d.op ≡ true
      → exec_transfer s d address current_pc ≡ some s'
      → IsPlain s s'
  unfolding exec_transfer plain_name
  exec_transfer-IsPlain d address current_pc {s' = s'} known high =
      let rt = s.gpr d.rt in
      case (d.op == 0x20) (loaded-IsPlain d sign_extend8 1 address) (λ e0.
        case (d.op == 0x21) (loaded-IsPlain d sign_extend16 2 address) (λ e1.
          case (d.op == 0x22)
            (into_rt-IsPlain d (λ v. v) (load_word_left s address rt)
              (λ v s1 e. load_word_left-IsPlain address rt v e))
            (λ e2. case (d.op == 0x23) (loaded-IsPlain d (λ v. v) 4 address) (λ e3.
              case (d.op == 0x24) (loaded-IsPlain d (λ v. v) 1 address) (λ e4.
                case (d.op == 0x25) (loaded-IsPlain d (λ v. v) 2 address) (λ e5.
                  case (d.op == 0x26)
                    (into_rt-IsPlain d (λ v. v) (load_word_right s address rt)
                      (λ v s1 e. load_word_right-IsPlain address rt v e))
                    (λ e6. case (d.op == 0x28) (store-IsPlain 1 address rt) (λ e7.
                      case (d.op == 0x29) (store-IsPlain 2 address rt) (λ e8.
                        case (d.op == 0x2a) (store_word_left-IsPlain address rt) (λ e9.
                          case (d.op == 0x2b) (store-IsPlain 4 address rt) (λ e10.
                            case (d.op == 0x2e) (store_word_right-IsPlain address rt) (λ e11.
                              case (d.op == 0x2f)
                                (λ same. subst (IsPlain s) (some_lem same) (ok, (refl, refl)))
                                (λ e12.
                                  case (d.op == 0x33)
                                    (λ same. subst (IsPlain s) (some_lem same) (ok, (refl, refl)))
                                    (λ e13.
                                      case (d.op == 0x30) (loaded-IsPlain d (λ v. v) 4 address)
                                        (λ e14.
                                          case (d.op == 0x31)
                                            (lwc1-IsPlain d (load 4 s address)
                                              (λ v s1 e. load-IsPlain 4 address v e))
                                            (λ e15.
                                              case (d.op == 0x38)
                                                (sc-IsPlain d (store 4 s address rt)
                                                  (λ s1 e. store-IsPlain 4 address rt e))
                                                (λ e16.
                                                  case (d.op == 0x39)
                                                    (store-IsPlain 4 address (s.fpr d.rt))
                                                    (λ e17.
                                                      λ _. absurd (ground arith)))))))))))))))))))
