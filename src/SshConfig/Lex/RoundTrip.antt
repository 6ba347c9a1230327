-- ===== src/SshConfig/Lex/RoundTrip.antt =====
-- A directive written with quoted arguments is read back: lex.rs.
use tern.Prelude.{
  ℕ, ◌<◌, ◌≡◌, ◌≢◌, ◌∙◌, refl, ap, sym, Bool, true, false, some, List, [], ◌∷◌, ◌++◌, Text,
  is_whitespace, to_ascii_lowercase, All, arith, append_assoc, append-nil,
}
use tern.SshConfig.Lex.{
  Fields, field_char, finish, fields_loop, split_fields, directive_of, tokenize_line,
}

-- A character that a keyword may be made of.
abbrev pub KeyChar : ℕ → Type 0
KeyChar c = (is_whitespace c ≡ false) × (c ≢ b'"') × (c ≢ b'#') × (c ≢ b'=')

abbrev pub NoQuote : Text → Type 0
NoQuote a = All (λ c. c ≢ b'"') a

-- ` "arg"` for each argument.
abbrev pub quoted : List Text → Text
quoted [] = []
quoted (a ∷ args) = b' ' ∷ b'"' ∷ (a ++ b'"' ∷ quoted args)

abbrev at : List Text → Text → Bool → Bool → Fields
at out current in_quotes sep = record {
  out = out;
  current = current;
  in_quotes = in_quotes;
  separator_used = sep;
}

key_char :
    (cur : Text) (c : ℕ)
    → KeyChar c
    → field_char (at [] cur false false) c ≡ some (at [] (cur ++ c ∷ []) false false)
unfolding field_char
key_char cur c (w, q, h, e) = ground arith

quoted_char :
    (out : List Text) (cur : Text) (sep : Bool) (c : ℕ)
    → c ≢ b'"'
    → field_char (at out cur true sep) c ≡ some (at out (cur ++ c ∷ []) true sep)
unfolding field_char
quoted_char out cur sep c q = ground arith

space_char :
    (out : List Text) (cur : Text) (sep : Bool)
    → field_char (at out cur false sep) b' '
      ≡ some (at (finish (at out cur false sep)) [] false sep)
unfolding field_char finish is_whitespace
space_char out cur sep = ground arith

open_quote :
    (out : List Text) (sep : Bool)
    → field_char (at out [] false sep) b'"' ≡ some (at out [] true sep)
unfolding field_char
open_quote out sep = refl

-- After the closing quote the argument counts, also if it is empty.
close_quote :
    (out : List Text) (a : Text) (sep : Bool)
    → (out' : List Text) × (cur' : Text) × (sep' : Bool) × (field_char (at out a true sep) b'"'
        ≡ some (at out' cur' false sep'))
      × (finish (at out' cur' false sep') ≡ out ++ a ∷ [])
unfolding field_char finish
close_quote out [] sep = (out ++ [] ∷ [], [], true, refl, refl)
close_quote out (c ∷ a) sep = (out, c ∷ a, sep, refl, refl)

loop-key :
    (cur kw s : Text)
    → All KeyChar kw
    → fields_loop (at [] cur false false) (kw ++ s) ≡ fields_loop (at [] (cur ++ kw) false false) s
unfolding fields_loop
loop-key cur [] s h = rw append-nil
loop-key cur (c ∷ kw) s (k, h) =
    rw (key_char cur c k, fields_loop)
      (loop-key (cur ++ c ∷ []) kw s h
        ∙ ap (λ x. fields_loop (at [] x false false) s) (append_assoc cur (c ∷ []) kw))

loop-quoted :
    (out : List Text) (cur : Text) (sep : Bool) (a s : Text)
    → NoQuote a
    → fields_loop (at out cur true sep) (a ++ s) ≡ fields_loop (at out (cur ++ a) true sep) s
unfolding fields_loop
loop-quoted out cur sep [] s h = rw append-nil
loop-quoted out cur sep (c ∷ a) s (q, h) =
    rw (quoted_char out cur sep c q, fields_loop)
      (loop-quoted out (cur ++ c ∷ []) sep a s h
        ∙ ap (λ x. fields_loop (at out x true sep) s) (append_assoc cur (c ∷ []) a))

loop-next :
    (st next : Fields) (c : ℕ) (s : Text)
    → field_char st c ≡ some next
    → fields_loop st (c ∷ s) ≡ fields_loop next s
unfolding fields_loop
loop-next st next c s e = rw (e, fields_loop) refl

-- The arguments follow what has been read, whatever that is.
loop-args :
    (out : List Text) (cur : Text) (sep : Bool) (args : List Text)
    → All NoQuote args
    → fields_loop (at out cur false sep) (quoted args) ≡ finish (at out cur false sep) ++ args
unfolding fields_loop
loop-args out cur sep [] h = sym (append-nil _)
loop-args out cur sep (a ∷ args) (q, h) =
    let before = finish (at out cur false sep) in
    let (out', cur', sep', e, f) = close_quote before a sep in
    loop-next _ _ _ (b'"' ∷ (a ++ b'"' ∷ quoted args)) (space_char out cur sep)
    ∙ (loop-next _ _ _ (a ++ b'"' ∷ quoted args) (open_quote before sep)
        ∙ (loop-quoted before [] sep a (b'"' ∷ quoted args) q
            ∙ (loop-next _ _ _ (quoted args) e
                ∙ (loop-args out' cur' sep' args h
                    ∙ (ap (λ r. r ++ args) f ∙ append_assoc before (a ∷ []) args)))))

-- The lower case of an ASCII text is that of ASCII.
abbrev pub LowersAscii : (Text → Text) → Type 0
LowersAscii to_lowercase = (t : Text) → All (λ c. c < 128) t → to_lowercase t ≡ to_ascii_lowercase t

named-directive_of :
    (to_lowercase : Text → Text) (c : ℕ) (kw : Text) (args : List Text)
    → to_lowercase (c ∷ kw) ≡ to_ascii_lowercase (c ∷ kw)
    → directive_of to_lowercase ((c ∷ kw) ∷ args) ≡ some (to_ascii_lowercase (c ∷ kw), args)
unfolding directive_of to_ascii_lowercase
named-directive_of to_lowercase c kw args e = rw e refl

-- Where `to_lowercase` lowers an ASCII text as ASCII does: an ASCII keyword without blanks, quotes, `#` and `=`, followed by arguments in double quotes, is read back as that keyword in lower case and exactly those arguments, whatever blanks, `#`, `=`, characters beyond ASCII or nothing at all they hold, as long as they hold no quote.
pub tokenize_line-quoted :
    (to_lowercase : Text → Text) (c : ℕ) (kw : Text) (args : List Text)
    → LowersAscii to_lowercase
    → All (λ k. k < 128) (c ∷ kw)
    → All KeyChar (c ∷ kw)
    → All NoQuote args
    → tokenize_line to_lowercase ((c ∷ kw) ++ quoted args)
      ≡ some (to_ascii_lowercase (c ∷ kw), args)
unfolding tokenize_line split_fields finish
tokenize_line-quoted to_lowercase c kw args lowers ascii k h =
    ap (directive_of to_lowercase)
      (loop-key [] (c ∷ kw) (quoted args) k ∙ loop-args [] (c ∷ kw) false args h)
    ∙ named-directive_of to_lowercase c kw args (lowers (c ∷ kw) ascii)
