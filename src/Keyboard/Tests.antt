-- ===== src/Keyboard/Tests.antt =====
-- Runs of keyboard.c, and its theorems on keys that type "aA".
use flosp_os.Common.{ℕ, zero, suc, ◌+◌, ◌≡◌, refl, inl, inr, false, [], ◌∷◌, arith, get_or, codes}
use flosp_os.Common.Run.{done, fault}
use flosp_os.Machine.{Machine, print, ◌>>=◌, kputchar}
use flosp_os.Machine.Sample.{machine}
use flosp_os.Keyboard.{keycode_char}
use flosp_os.Keyboard.Typing.{Known, typed, handled, keycode_char-fault, press-shown, handled-typed}

-- a, shift down, a, shift up
abbrev keys : ℕ → ℕ
keys k = get_or (0x1e ∷ 0x2a ∷ 0x1e ∷ 0xaa ∷ []) k 0x39

abbrev keyboard : Machine
keyboard = record machine { env = record machine.env { port_in = λ k port. keys k } }

small_and_capital : typed keys 4 0 false [] ≡ (false, print (codes "A") ∷ print (codes "a") ∷ [])
unfolding typed
small_and_capital = refl

keys-Known : (i : ℕ) → Known (keys i)
keys-Known zero = inl (omega arith)
keys-Known (suc zero) = inl (omega arith)
keys-Known (suc (suc zero)) = inl (omega arith)
keys-Known (suc (suc (suc zero))) = inr (inl refl)
keys-Known (suc (suc (suc (suc i)))) = inl (omega arith)

keycode_char-fault_example : keycode_char 0x9e machine ≡ fault
keycode_char-fault_example =
    keycode_char-fault 0x9e machine (omega arith) (λ e. omega (arith, e)) (λ e. omega (arith, e))

press-shown_example :
    (keycode_char 0x1e >>= kputchar) machine
    ≡ done (tt, record machine { shift_down = false; trace = print (codes "a") ∷ [] })
press-shown_example = press-shown 0x1e machine (inl (omega arith))

handled-typed_example : handled 4 keyboard ≡ (
    let result = typed keys 4 0 false [] in
    done (tt, record keyboard { now = 4; shift_down = result.0; trace = result.1 }))
handled-typed_example = handled-typed 4 keyboard (λ i lt. keys-Known (0 + i))
