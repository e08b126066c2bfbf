-- ===== src/Keyboard/Keys.antt =====
-- Key codes and the tables of kernel/src/drivers/keyboard.rs: scancode set 1, the codes behind the
-- prefix E0, and the characters of a US keyboard. A letter's key is `letter_a` for the source's `A`;
-- `no_key` is its `KeyCode::None`. Characters are their code points.
use orin_os.Prelude.{ℕ, Bool, true, false, List, [], ◌∷◌, Option, none, some, ◌==◌, if◌then◌else◌}

pub data KeyCode : Type 0 where
  no_key escape f1 f2 f3 f4 f5 f6 f7 f8 f9 f10 f11 f12 backquote num1 num2 num3 : KeyCode
  num4 num5 num6 num7 num8 num9 num0 minus equal backspace tab letter_q letter_w : KeyCode
  letter_e letter_r letter_t letter_y letter_u letter_i letter_o letter_p : KeyCode
  bracket_left bracket_right backslash caps_lock letter_a letter_s letter_d : KeyCode
  letter_f letter_g letter_h letter_j letter_k letter_l letter_z letter_x letter_c : KeyCode
  letter_v letter_b letter_n letter_m semicolon quote enter shift_left shift_right : KeyCode
  control_left control_right alt_left alt_right super_left super_right space : KeyCode
  print_screen scroll_lock pause insert home page_up delete end page_down arrow_up : KeyCode
  arrow_left arrow_down arrow_right num_lock keypad_slash keypad_asterisk : KeyCode
  keypad_minus keypad_plus keypad_enter keypad_dot keypad0 keypad1 keypad2 keypad3 : KeyCode
  keypad4 keypad5 keypad6 keypad7 keypad8 keypad9 comma period slash : KeyCode
  unknown : ℕ → KeyCode

-- `code == KeyCode::None`
abbrev pub is_no_key : KeyCode → Bool
is_no_key no_key = true
is_no_key _ = false

-- What a key does to the modifiers.
pub data Modifier : Type 0 where
  shift control alt : Modifier

unfoldable pub modifier : KeyCode → Option Modifier
modifier shift_left = some shift
modifier shift_right = some shift
modifier control_left = some control
modifier control_right = some control
modifier alt_left = some alt
modifier alt_right = some alt
modifier _ = none

unfoldable pub scancode_base : List KeyCode
scancode_base =
    no_key ∷ escape ∷ num1 ∷ num2 ∷ num3 ∷ num4 ∷ num5 ∷ num6 ∷ num7 ∷ num8 ∷ num9 ∷ num0 ∷ minus
    ∷ equal ∷ backspace ∷ tab ∷ letter_q ∷ letter_w ∷ letter_e ∷ letter_r ∷ letter_t ∷ letter_y
    ∷ letter_u ∷ letter_i ∷ letter_o ∷ letter_p ∷ bracket_left ∷ bracket_right ∷ enter
    ∷ control_left ∷ letter_a ∷ letter_s ∷ letter_d ∷ letter_f ∷ letter_g ∷ letter_h ∷ letter_j
    ∷ letter_k ∷ letter_l ∷ semicolon ∷ quote ∷ backquote ∷ shift_left ∷ backslash ∷ letter_z
    ∷ letter_x ∷ letter_c ∷ letter_v ∷ letter_b ∷ letter_n ∷ letter_m ∷ comma ∷ period ∷ slash
    ∷ shift_right ∷ keypad_asterisk ∷ alt_left ∷ space ∷ caps_lock ∷ f1 ∷ f2 ∷ f3 ∷ f4 ∷ f5 ∷ f6
    ∷ f7 ∷ f8 ∷ f9 ∷ f10 ∷ num_lock ∷ scroll_lock ∷ keypad7 ∷ keypad8 ∷ keypad9 ∷ keypad_minus
    ∷ keypad4 ∷ keypad5 ∷ keypad6 ∷ keypad_plus ∷ keypad1 ∷ keypad2 ∷ keypad3 ∷ keypad0 ∷ keypad_dot
    ∷ no_key ∷ no_key ∷ no_key ∷ f11 ∷ f12 ∷ no_key ∷ no_key ∷ no_key ∷ no_key ∷ no_key ∷ no_key
    ∷ no_key ∷ []

unfoldable pub scancode_e0_map : List (ℕ × KeyCode)
scancode_e0_map =
    (0x1C, keypad_enter)
    ∷ (0x1D, control_right)
    ∷ (0x35, keypad_slash)
    ∷ (0x37, print_screen)
    ∷ (0x38, alt_right)
    ∷ (0x47, home)
    ∷ (0x48, arrow_up)
    ∷ (0x49, page_up)
    ∷ (0x4B, arrow_left)
    ∷ (0x4D, arrow_right)
    ∷ (0x4F, end)
    ∷ (0x50, arrow_down)
    ∷ (0x51, page_down)
    ∷ (0x52, insert)
    ∷ (0x53, delete)
    ∷ (0x5B, super_left)
    ∷ (0x5C, super_right)
    ∷ []

-- The loop of `lookup_e0`.
unfoldable pub lookup_in : List (ℕ × KeyCode) → ℕ → KeyCode
lookup_in [] idx = no_key
lookup_in ((code, key) ∷ rest) idx = if code == idx then key else lookup_in rest idx

unfoldable pub lookup_e0 : ℕ → KeyCode
lookup_e0 idx = lookup_in scancode_e0_map idx

-- The two characters of a key, without shift and with it.
unfoldable pub chars_of : KeyCode → Option (ℕ × ℕ)
chars_of backquote = some (96, 126)
chars_of num1 = some (49, 33)
chars_of num2 = some (50, 64)
chars_of num3 = some (51, 35)
chars_of num4 = some (52, 36)
chars_of num5 = some (53, 37)
chars_of num6 = some (54, 94)
chars_of num7 = some (55, 38)
chars_of num8 = some (56, 42)
chars_of num9 = some (57, 40)
chars_of num0 = some (48, 41)
chars_of minus = some (45, 95)
chars_of equal = some (61, 43)
chars_of letter_q = some (113, 81)
chars_of letter_w = some (119, 87)
chars_of letter_e = some (101, 69)
chars_of letter_r = some (114, 82)
chars_of letter_t = some (116, 84)
chars_of letter_y = some (121, 89)
chars_of letter_u = some (117, 85)
chars_of letter_i = some (105, 73)
chars_of letter_o = some (111, 79)
chars_of letter_p = some (112, 80)
chars_of bracket_left = some (91, 123)
chars_of bracket_right = some (93, 125)
chars_of backslash = some (92, 124)
chars_of letter_a = some (97, 65)
chars_of letter_s = some (115, 83)
chars_of letter_d = some (100, 68)
chars_of letter_f = some (102, 70)
chars_of letter_g = some (103, 71)
chars_of letter_h = some (104, 72)
chars_of letter_j = some (106, 74)
chars_of letter_k = some (107, 75)
chars_of letter_l = some (108, 76)
chars_of semicolon = some (59, 58)
chars_of quote = some (39, 34)
chars_of letter_z = some (122, 90)
chars_of letter_x = some (120, 88)
chars_of letter_c = some (99, 67)
chars_of letter_v = some (118, 86)
chars_of letter_b = some (98, 66)
chars_of letter_n = some (110, 78)
chars_of letter_m = some (109, 77)
chars_of comma = some (44, 60)
chars_of period = some (46, 62)
chars_of slash = some (47, 63)
chars_of space = some (32, 32)
chars_of enter = some (10, 10)
chars_of tab = some (9, 9)
chars_of backspace = some (8, 8)
chars_of escape = some (27, 27)
chars_of keypad0 = some (48, 48)
chars_of keypad1 = some (49, 49)
chars_of keypad2 = some (50, 50)
chars_of keypad3 = some (51, 51)
chars_of keypad4 = some (52, 52)
chars_of keypad5 = some (53, 53)
chars_of keypad6 = some (54, 54)
chars_of keypad7 = some (55, 55)
chars_of keypad8 = some (56, 56)
chars_of keypad9 = some (57, 57)
chars_of keypad_dot = some (46, 46)
chars_of keypad_slash = some (47, 47)
chars_of keypad_asterisk = some (42, 42)
chars_of keypad_minus = some (45, 45)
chars_of keypad_plus = some (43, 43)
chars_of keypad_enter = some (10, 10)
chars_of _ = none

unfoldable pub char_for : KeyCode → Bool → Option ℕ
char_for code shifted = elim (chars_of code) [
  | none ↦ none
  | some (lo, hi) ↦ some (if shifted then hi else lo)
]
