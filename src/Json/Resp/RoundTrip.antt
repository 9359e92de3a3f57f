-- ===== src/Json/Resp/RoundTrip.antt =====
-- The commands that `concat_resp` of crates/libs/lib-lualib/src/lua_json.rs writes, against a reader
-- of Redis's protocol.
use lrust.Base.{
  ℕ, suc, ◌≡◌, refl, sym, ap, ◌∙◌, Bool, true, false, if◌then◌else◌, List, [], ◌∷◌, ◌++◌, Option,
  none, some, length, map, append_assoc, append-nil, arith,
}
use lrust.Base.Text.{Bytes, codes, to_string, to_string_ℤ}
use lrust.Lua.{LuaValue, nil, boolean, number, integer, string, table, Heap}
use lrust.Json.Encode.{JsonOptions, Encoding, written, failed, encode_table, ◌>>=◌}
use lrust.Json.Resp.{
  key_hash, opt_str, close_command, write_resp, write_each, concat_resp_one, concat_resp, Command,
  command, after_table,
}
use lrust.Json.Resp.Reader.{bulk, bulks, frame, read_command, read_command-frame}

written_eq : {s t : Bytes} → written s ≡ written t → s ≡ t
written_eq e = ap text e
  where
    text : Encoding → Bytes
    text (written t) = t
    text (failed f) = []

abbrev json_text : Encoding → Option Bytes
json_text (written t) = some t
json_text (failed f) = none

if_false : {A : Type 0} {b : Bool} {y z : A} (x : A) → b ≡ false → (if b then x else y) ≡ z → y ≡ z
if_false {b = true} x e h = absurd (ground arith)
if_false {b = false} x e h = h

bind_written :
    (x : Encoding) (f : Bytes → Encoding) (u : Bytes)
    → (x >>= f) ≡ written u
    → (y : Bytes) × (x ≡ written y) × (f y ≡ written u)
unfolding ◌>>=◌
bind_written (written y) f u e = (y, refl, e)
bind_written (failed g) f u e = absurd (ground arith)

closed :
    (hash hash' : ℕ) (x : Encoding) (t : Bytes)
    → close_command hash x ≡ command t hash'
    → (y : Bytes) × (x ≡ written y) × (t ≡ y ++ codes "\r\n")
closed hash hash' (written y) t e = (y, refl, sym (ap text e))
  where
    text : Command → Bytes
    text (command t n) = t
    text c = []
closed hash hash' (failed f) t e = absurd (ground arith)

length-map : {A B : Type 0} (f : A → B) (xs : List A) → length (map f xs) ≡ length xs
length-map f [] = refl
length-map f (x ∷ xs) = ap suc (length-map f xs)

regroup_text :
    (w s : Bytes)
    → w ++ codes "\r\n$" ++ to_string (length s) ++ codes "\r\n" ++ s
      ≡ w ++ (codes "\r\n$" ++ to_string (length s) ++ codes "\r\n" ++ s)
regroup_text w s = simp append_assoc

after_table-bulk :
    (x : Encoding) (w u : Bytes) → after_table w x ≡ written u → u ≡ w ++ bulk (json_text x)
unfolding after_table write_resp bulk
after_table-bulk (written t) w u e = sym (written_eq e) ∙ regroup_text w t
after_table-bulk (failed f) w u e = absurd (ground arith)

module _ (number_text : ℕ → Bytes) (options : JsonOptions) (h : Heap) where
  -- The text of an argument: of a table its JSON.
  pub text_of : LuaValue → Option Bytes
  text_of (boolean b) = some (if b then codes "true" else codes "false")
  text_of (number x) = some (number_text x)
  text_of (integer n) = some (to_string_ℤ n)
  text_of (string s) = some s
  text_of (table a) = json_text (encode_table number_text options false h 65 0 a [])
  text_of v = none

  concat_resp_one-bulk :
      ((a : ℕ) → (h a).has_redis ≡ false)
      → (fuel : ℕ) (v : LuaValue) (w u : Bytes)
      → concat_resp_one number_text options h (suc fuel) v w ≡ written u
      → u ≡ w ++ bulk (text_of v)
  unfolding concat_resp_one write_resp text_of bulk
  concat_resp_one-bulk plain fuel nil w u e = sym (written_eq e)
  concat_resp_one-bulk plain fuel (number x) w u e =
      sym (written_eq e) ∙ regroup_text w (number_text x)
  concat_resp_one-bulk plain fuel (integer n) w u e =
      sym (written_eq e) ∙ regroup_text w (to_string_ℤ n)
  concat_resp_one-bulk plain fuel (boolean b) w u e =
      sym (written_eq e) ∙ regroup_text w (if b then codes "true" else codes "false")
  concat_resp_one-bulk plain fuel (string s) w u e = sym (written_eq e) ∙ regroup_text w s
  concat_resp_one-bulk plain fuel (table a) w u e =
      after_table-bulk (encode_table number_text options false h 65 0 a []) w u
        (if_false _ (plain a) e)
  concat_resp_one-bulk plain fuel v w u e = absurd (ground arith)

  write_each-bulks :
      ((a : ℕ) → (h a).has_redis ≡ false)
      → (fuel : ℕ) (vs : List LuaValue) (w u : Bytes)
      → write_each (concat_resp_one number_text options h (suc fuel)) (some vs) w ≡ written u
      → u ≡ w ++ bulks (map text_of vs)
  unfolding write_each ◌>>=◌ bulks
  write_each-bulks plain fuel [] w u e = sym (written_eq e) ∙ sym (append-nil w)
  write_each-bulks plain fuel (v ∷ vs) w u e =
      let q =
        bind_written (concat_resp_one number_text options h (suc fuel) v w)
          (write_each (concat_resp_one number_text options h (suc fuel)) (some vs)) u e in
      write_each-bulks plain fuel vs (q.0) u (q.2)
      ∙ ap (λ (z : Bytes). z ++ bulks (map text_of vs))
          (concat_resp_one-bulk plain fuel v w (q.0) (q.1))
      ∙ append_assoc w (bulk (text_of v)) (bulks (map text_of vs))

  -- A command without tables that have `__redis` is read back from what is written of it, with
  -- whatever follows left: as many texts as there are arguments, in order, whatever bytes are in them,
  -- and a nil for a nil.
  pub read_command-concat_resp :
      ((a : ℕ) → (h a).has_redis ≡ false)
      → (fuel : ℕ) (args : List LuaValue) (t r : Bytes) (hash : ℕ)
      → concat_resp number_text options h (suc fuel) args ≡ command t hash
      → read_command (t ++ r) ≡ some (map text_of args, r)
  unfolding concat_resp frame
  read_command-concat_resp plain fuel [] t r hash e = absurd (ground arith)
  read_command-concat_resp plain fuel (v ∷ vs) t r hash e =
      let q = closed (key_hash (v ∷ vs) (opt_str v)) hash _ t e in
      ap (λ (z : Bytes). read_command (z ++ r))
        (q.2
          ∙ ap (λ (z : Bytes). z ++ codes "\r\n")
              (write_each-bulks plain fuel (v ∷ vs) _ (q.0) (q.1)
                ∙ ap (λ (n : ℕ). codes "*" ++ to_string n ++ bulks (map text_of (v ∷ vs)))
                    (sym (length-map text_of (v ∷ vs)))))
      ∙ read_command-frame (map text_of (v ∷ vs)) r
