-- ===== src/Multiboot/Words.antt =====
-- How the parameters of a command line depend on its words.
use orin_os.Prelude.{
  ℕ, ◌≡◌, ◌≢◌, refl, sym, ap, ◌∙◌, false, List, [], ◌∷◌, ◌++◌, none, some, Outcome, ok, panic,
  ◌>>=◌, Bool-cases, inl, inr,
}
use mathlib.Core.List.{append_assoc, append-nil}
use orin_os.Prelude.Loops.{Gives}
use orin_os.Log.{
  Level, trace, debug, info, warn, error, critical, panicking, parse_level, same_text, trace_text,
  debug_text, info_text, warn_text, error_text, critical_text,
}
use orin_os.Multiboot.Params.{
  BootParams, is_space, close, words_from, strip_prefix, split_value, take_param, take_word,
  take_words, parse_params, default_params, prefix_text, log_text,
}

words_from-append :
    (a b cur : List ℕ) → words_from cur (a ++ 32 ∷ b) ≡ words_from cur a ++ words_from [] b
unfolding words_from is_space
words_from-append [] b cur = refl
words_from-append (x ∷ a) b cur = elim (Bool-cases (is_space x)) [
  | inl e ↦
      rw (e, words_from)
        (ap (λ (t : List (List ℕ)). close cur ++ t) (words_from-append a b [])
          ∙ sym (append_assoc (close cur) (words_from [] a) (words_from [] b)))
  | inr e ↦ rw (e, words_from) (words_from-append a b (cur ++ x ∷ []))
]

take_words-append :
    (p : BootParams) (ts us : List (List ℕ))
    → take_words p (ts ++ us) ≡ (take_words p ts >>= λ q. take_words q us)
unfolding take_words
take_words-append p [] us = refl
take_words-append p (t ∷ ts) us = by_first (λ q. take_words-append q ts us) (take_word p t)
  where
    by_first :
        ((q : BootParams) → take_words q (ts ++ us) ≡ (take_words q ts >>= λ r. take_words r us))
        → (m : Outcome BootParams)
        → (m >>= λ q. take_words q (ts ++ us))
          ≡ ((m >>= λ q. take_words q ts) >>= λ r. take_words r us)
    by_first later (ok q) = later q
    by_first later (panic e) = refl

-- A command line that is read up to a space, and then the rest.
split_at_space :
    (a b : List ℕ)
    → parse_params (a ++ 32 ∷ b) ≡ (parse_params a >>= λ p. take_words p (words_from [] b))
unfolding parse_params
split_at_space a b =
    ap (take_words default_params) (words_from-append a b [])
    ∙ take_words-append default_params (words_from [] a) (words_from [] b)

-- Bytes without a space.
abbrev pub IsWord : List ℕ → Type 0
IsWord [] = Unit
IsWord (b ∷ bs) = (is_space b ≡ false) × IsWord bs

words_from-word : (t cur : List ℕ) → IsWord t → words_from cur t ≡ close (cur ++ t)
unfolding words_from
words_from-word [] cur h = ap close (sym (append-nil cur))
words_from-word (b ∷ t) cur (e, h) =
    rw (e, words_from)
      (words_from-word t (cur ++ b ∷ []) h ∙ ap close (append_assoc cur (b ∷ []) t))

foreign_word :
    (p : BootParams) (t : List ℕ)
    → strip_prefix prefix_text t ≡ none
    → take_words p (close t) ≡ ok p
unfolding take_words close take_word
foreign_word p [] e = refl
foreign_word p (b ∷ t) e = rw (e, take_word) refl

-- A word of the command line that does not begin with `orin.`, between any two parts of it, changes no
-- parameter.
parse_params_foreign :
    (a t b : List ℕ)
    → IsWord t
    → strip_prefix prefix_text t ≡ none
    → parse_params (a ++ 32 ∷ (t ++ 32 ∷ b)) ≡ parse_params (a ++ 32 ∷ b)
parse_params_foreign a t b h e =
    split_at_space a (t ++ 32 ∷ b) ∙ by_start (parse_params a) ∙ sym (split_at_space a b)
  where
    by_start :
        (m : Outcome BootParams)
        → (m >>= λ p. take_words p (words_from [] (t ++ 32 ∷ b)))
          ≡ (m >>= λ p. take_words p (words_from [] b))
    by_start (panic f) = refl
    by_start (ok p) =
        ap (take_words p) (words_from-append t b [])
        ∙ take_words-append p (words_from [] t) (words_from [] b)
        ∙ ap (λ (m : Outcome BootParams). m >>= λ q. take_words q (words_from [] b))
            (ap (take_words p) (words_from-word t [] h) ∙ foreign_word p t e)

-- The name of a level; a panic has none.
abbrev pub level_text : Level → List ℕ
level_text trace = trace_text
level_text debug = debug_text
level_text info = info_text
level_text warn = warn_text
level_text error = error_text
level_text critical = critical_text
level_text panicking = []

-- The word that sets a level.
abbrev pub level_word : Level → List ℕ
level_word l = prefix_text ++ (log_text ++ 61 ∷ level_text l)

sets_level :
    (l : Level) (p : BootParams)
    → l ≢ panicking
    → Gives (λ (q : BootParams). q.log ≡ some l) (take_words p (words_from [] (level_word l)))
unfolding words_from is_space close take_words take_word strip_prefix split_value take_param
    same_text parse_level
sets_level trace p ne = (record p { log = some trace }, refl, refl)
sets_level debug p ne = (record p { log = some debug }, refl, refl)
sets_level info p ne = (record p { log = some info }, refl, refl)
sets_level warn p ne = (record p { log = some warn }, refl, refl)
sets_level error p ne = (record p { log = some error }, refl, refl)
sets_level critical p ne = (record p { log = some critical }, refl, refl)
sets_level panicking p ne = absurd (ne refl)

-- A last word `orin.log=` with the name of a level other than a panic's sets that level.
parse_params_level :
    (cmdline : List ℕ) (l : Level) (p : BootParams)
    → l ≢ panicking
    → parse_params cmdline ≡ ok p
    → Gives (λ (q : BootParams). q.log ≡ some l) (parse_params (cmdline ++ 32 ∷ level_word l))
parse_params_level cmdline l p ne e =
    rw (split_at_space cmdline (level_word l), e) (sets_level l p ne)
