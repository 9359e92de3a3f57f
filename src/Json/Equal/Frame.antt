-- ===== src/Json/Equal/Frame.antt =====
-- What the loops of the encoder share: texts after a writer, and pieces after a comma.
use lrust.Base.{
  ℕ, suc, ◌-◌, ◌≡◌, refl, ap, ◌∙◌, Bool, true, false, ltb, ◌==◌, if◌then◌else◌, [], ◌∷◌, ◌++◌,
  length, take, append_assoc, append-nil, take-length_append, length-append, arith,
}
use lrust.Base.Text.{Bytes, codes}
use lrust.Lua.{LuaValue}
use lrust.Json.Encode.{
  format_space, format_new_line, Encoding, written, failed, ◌>>=◌, push, Context,
}
use lrust.Json.Render.{new_line, indent, Pieces, pieces, gap, stopped, prepend, more, Style, framed}
use lrust.Json.Append.{format_space-indent, format_new_line-new_line}

-- An encoding with what the writer held before.
abbrev pub after : Bytes → Encoding → Encoding
after w (written t) = written (w ++ t)
after w (failed e) = failed e

-- What a context shares with a style.
abbrev pub style : Context → (LuaValue → Encoding) → Style
style c text = record { options = c.options; fmt = c.fmt; depth = c.depth; text = text }

-- `text v` is what encoding an element v appends.
pub record Appends (c : Context) (text : LuaValue → Encoding) : Type 0 where
  pub one : (v : LuaValue) (w : Bytes) → c.one v w ≡ after w (text v)

pub after-framed :
    (w before behind : Bytes) (e : Encoding) (f : Bytes → Encoding)
    → (after (w ++ before) e >>= λ t. f (t ++ behind)) ≡ (after w (framed before behind e) >>= f)
unfolding ◌>>=◌
after-framed w before behind (written t) f = ap f (simp append_assoc)
after-framed w before behind (failed e) f = refl

pub framed-end :
    (w before : Bytes) (e : Encoding) → after (w ++ before) e ≡ after w (framed before [] e)
framed-end w before (written t) = simp (append_assoc, append-nil)
framed-end w before (failed e) = refl

-- What stands before the value of an entry.
abbrev pub before_value : Bool → ℕ → Bytes → Bytes
before_value fmt depth key =
    new_line fmt
    ++ indent fmt depth
    ++ codes "\""
    ++ key
    ++ codes "\":"
    ++ (if fmt then codes " " else [])

pub key_before :
    (fmt : Bool) (depth : ℕ) (key w : Bytes)
    → (let w1 = push (format_space fmt depth (w ++ new_line fmt)) b'"' ++ key ++ codes "\":" in
        if fmt then push w1 b' ' else w1)
      ≡ w ++ before_value fmt depth key
key_before true depth key w =
    rw (format_space-indent true depth (w ++ new_line true)) (simp append_assoc)
key_before false depth key w =
    rw (format_space-indent false depth (w ++ new_line false)) (simp append_assoc)

pub line_and_space :
    (fmt : Bool) (n : ℕ) (w : Bytes)
    → format_space fmt n (format_new_line fmt w) ≡ w ++ new_line fmt ++ indent fmt n
line_and_space fmt n w =
    rw (format_space-indent fmt n (format_new_line fmt w), format_new_line-new_line fmt w)
      (simp append_assoc)

pub suc-eq_zero : (n : ℕ) → (suc n == 0) ≡ false
suc-eq_zero n = ground arith

pub zero-ltb : (n : ℕ) → ltb 0 (suc n) ≡ true
zero-ltb n = ground arith

pub pop-push : (w : Bytes) (c : ℕ) → take (length (push w c) - 1) (push w c) ≡ w
pop-push w c =
    ap (λ (n : ℕ). take n (push w c)) (omega (arith, length-append w (c ∷ [])))
    ∙ take-length_append w (c ∷ [])

pub regroup : (w x u : Bytes) → push (w ++ x) b',' ++ u ≡ w ++ (push x b',' ++ u)
regroup w x u = simp append_assoc

pub after_push : (w : Bytes) (c : ℕ) (t u : Bytes) → push w c ++ t ++ u ≡ w ++ ((c ∷ t) ++ u)
after_push w c t u = simp append_assoc

-- What the pieces after `w` come to, each after its comma.
unfoldable pub finished : Bytes → Bytes → Encoding → Pieces → Encoding
finished w close if_gap (pieces ts) = written (w ++ more ts ++ close)
finished w close if_gap gap = if_gap
finished w close if_gap (stopped e) = failed e

pub finished-prepend :
    (w close : Bytes) (if_gap e : Encoding) (ps : Pieces) (f : Bytes → Encoding)
    → ((t : Bytes) → f (push w b',' ++ t) ≡ finished (push w b',' ++ t) close if_gap ps)
    → (after (push w b',') e >>= f) ≡ finished w close if_gap (prepend e ps)
unfolding finished ◌>>=◌ more
finished-prepend w close if_gap (written t) (pieces ts) f h = h t ∙ ap written (simp append_assoc)
finished-prepend w close if_gap (written t) gap f h = h t
finished-prepend w close if_gap (written t) (stopped e) f h = h t
finished-prepend w close if_gap (failed e) ps f h = refl
