-- ===== src/Solo/Start/Uploaded.antt =====
-- The contracts that `start` of lib/ag-solo/start.js uploads, as `upload` of
-- lib/ag-solo/upload-contract.js reads them.
use cosmic_swingset.Base.Text.{Text, codes, is_line_end}
use cosmic_swingset.Solo.Start.{pair_of}
use cosmic_swingset.Upload.{span, with_path, with_rest, parse_name_path}
use cosmic_swingset.Base.{
  nat_beq, length, any, All, ℕ, ◌≡◌, refl, ◌≢◌, Bool, true, false, not, some, [], ◌∷◌, ◌++◌, arith,
}

span-stop :
    (p : ℕ → Bool) (own rest : Text) (c : ℕ)
    → All (λ d. p d ≡ true) own
    → p c ≡ false
    → span p (own ++ (c ∷ rest)) ≡ (own, c ∷ rest)
span-stop p [] rest c h e = rw e refl
span-stop p (d ∷ own) rest c h e = rw (h.0, span-stop p own rest c h.1 e) refl

-- the two targets that a name can begin with
pub data IsTarget : Text → Type 0 where
  zoe : IsTarget (codes "zoe")
  contract_host : IsTarget (codes "contractHost")

-- not `=`
abbrev pub is_own : ℕ → Bool
is_own c = not (nat_beq c b'=')

with_path-slash :
    (target name dir file : Text)
    → any is_line_end (dir ++ (b'/' ∷ file)) ≡ false
    → with_path target name (b'=' ∷ (dir ++ (b'/' ∷ file)))
      ≡ some (record { name = name; target = target; path = dir ++ (b'/' ∷ file) })
with_path-slash target name [] file e = rw e refl
with_path-slash target name (c ∷ dir) file e = rw e refl

with_rest-own :
    (t : ℕ) (ts own dir file : Text)
    → own ≢ []
    → All (λ c. is_own c ≡ true) own
    → any is_line_end (dir ++ (b'/' ∷ file)) ≡ false
    → with_rest (t ∷ ts) (b'-' ∷ (own ++ (b'=' ∷ (dir ++ (b'/' ∷ file)))))
      ≡ some
          (record { name = (t ∷ ts) ++ (b'-' ∷ own); target = t ∷ ts; path = dir ++ (b'/' ∷ file) })
with_rest-own t ts [] dir file ne h e = absurd (ne refl)
with_rest-own t ts (c ∷ own) dir file ne h e =
    let longer : nat_beq (length (c ∷ own)) 0 ≡ false = ground arith in
    rw (span-stop is_own (c ∷ own) (dir ++ (b'/' ∷ file)) b'=' h refl, longer)
      (with_path-slash (t ∷ ts) ((t ∷ ts) ++ (b'-' ∷ c ∷ own)) dir file e)

-- The argument that `start` makes for a contract is read by `upload` as it was meant: the target, the
-- name behind it, and the path of the file, if the name has no `=` and the path no end of a line.
pub parse_name_path-pair_of :
    (target own dir file : Text)
    → IsTarget target
    → own ≢ []
    → All (λ c. is_own c ≡ true) own
    → any is_line_end (dir ++ (b'/' ∷ file)) ≡ false
    → parse_name_path (pair_of dir file (target, own))
      ≡ some
          (record { name = target ++ (b'-' ∷ own); target = target; path = dir ++ (b'/' ∷ file) })
unfolding parse_name_path
parse_name_path-pair_of _ own dir file zoe ne h e =
    with_rest-own b'z' (codes "oe") own dir file ne h e
parse_name_path-pair_of _ own dir file contract_host ne h e =
    with_rest-own b'c' (codes "ontractHost") own dir file ne h e
