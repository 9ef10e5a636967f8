-- ===== src/Probe/Reading.antt =====
-- What a read below a root gives.
use ohinfra_plugins.Base.{
  not-true, ℕ, ◌≡◌, refl, ◌+◌, Text, Bool, true, false, not, List, [], ◌∷◌, length, take, leb, ◌==◌,
  Option, not_exist, none, some, ok, err, Error, arith, inl, inr, zero, suc, ◌<◌, ap, sym, ◌∙◌, ℤ,
  pos, negsuc, Bool-cases, ◌^◌,
}
use ohinfra_plugins.Paths.{split_path, clean_relative_path, is_root, join_path}
use ohinfra_plugins.Disk.{Entry, Entries, Disk, lift}
use ohinfra_plugins.Disk.Looking.{
  Looks, look-Looks, continue-Looks, weaken-Looks, lift-Looks, lstat-Looks,
}
use ohinfra_plugins.Probe.{
  is_symlink, is_directory, is_regular, guard, walk, confined_path, content_at, read_bound,
  read_within, read,
}

pub guard-Looks :
    (entries : Entries) (b : Bool) (e : Error) (d : Disk)
    → d.entries ≡ entries
    → Looks entries (λ _. b ≡ true) (guard b e d)
guard-Looks entries true e d same = (same, refl)
guard-Looks entries false e d same = same

-- The entries at the path and at each step below it, none a symbolic link.
abbrev pub Reaches : Entries → Text → List Text → Text × Entry → Type 0
Reaches entries current [] (path, info) =
    (path ≡ current) × (entries current ≡ some info) × (is_symlink info ≡ false)
Reaches entries current (c ∷ rest) end =
    ((info : Entry) × (entries current ≡ some info) × (is_symlink info ≡ false))
    × Reaches entries (join_path current c) rest end

walk-Looks :
    (entries : Entries) (relative current : Text) (info : Entry) (parts : List Text) (d : Disk)
    → d.entries ≡ entries
    → entries current ≡ some info
    → is_symlink info ≡ false
    → Looks entries (Reaches entries current parts) (walk relative current info parts d)
unfolding walk
walk-Looks entries relative current info [] d same here plain = (same, (refl, here, plain))
walk-Looks entries relative current info (c ∷ rest) d same here plain =
    let next : Text = join_path current c in
    continue-Looks entries (λ found. entries next ≡ some found) (Reaches entries current (c ∷ rest))
      _ _ (lstat-Looks entries next d same)
      (λ found d' same' there.
        continue-Looks entries (λ _. not (is_symlink found) ≡ true)
          (Reaches entries current (c ∷ rest)) (λ _. walk relative next found rest) _
          (guard-Looks entries (not (is_symlink found)) _ d' same')
          (λ _ d'' same'' q.
            weaken-Looks entries (Reaches entries next rest) (Reaches entries current (c ∷ rest)) _
              (walk-Looks entries relative next found rest d'' same'' there (not-true _ q))
              (λ end r. ((info, here, plain), r))))

-- The end of a path below the root.
abbrev pub Leads : Entries → Text → Text → Text × Entry → Type 0
Leads entries root relative end =
    (path : Text) × (clean_relative_path relative ≡ ok path)
    × (is_root root ≡ true)
    × Reaches entries root (split_path path) end

pub confined_path-Looks :
    (entries : Entries) (root relative : Text) (d : Disk)
    → d.entries ≡ entries
    → Looks entries (Leads entries root relative) (confined_path root relative d)
unfolding confined_path
confined_path-Looks entries root relative d same =
    let R : Text × Entry → Type 0 = Leads entries root relative in
    continue-Looks entries (λ path. clean_relative_path relative ≡ ok path) R _ _
      (lift-Looks entries (clean_relative_path relative) d same)
      (λ path d0 same0 cleaned.
        continue-Looks entries (λ _. is_root root ≡ true) R _ _
          (guard-Looks entries (is_root root) _ d0 same0)
          (λ _ d1 same1 rooted.
            continue-Looks entries (λ info. entries root ≡ some info) R _ _
              (lstat-Looks entries root d1 same1)
              (λ info d2 same2 here.
                continue-Looks entries (λ _. not (is_symlink info) ≡ true) R _ _
                  (guard-Looks entries (not (is_symlink info)) _ d2 same2)
                  (λ _ d3 same3 plain.
                    continue-Looks entries (λ _. is_directory info ≡ true) R _ _
                      (guard-Looks entries (is_directory info) _ d3 same3)
                      (λ _ d4 same4 isdir.
                        weaken-Looks entries (Reaches entries root (split_path path)) R _
                          (walk-Looks entries relative root info (split_path path) d4 same4 here
                            (not-true _ plain))
                          (λ end r. (path, cleaned, rooted, r)))))))

Reaches-end :
    (entries : Entries) (current : Text) (parts : List Text) (path : Text) (info : Entry)
    → Reaches entries current parts (path, info)
    → entries path ≡ some info
Reaches-end entries current [] path info (same, here, plain) = rw same here
Reaches-end entries current (c ∷ rest) path info (above, below) =
    Reaches-end entries (join_path current c) rest path info below

-- What a read of a file within a limit has gone through, and what it gives.
abbrev pub IsReading : Entries → Text → Text → ℕ → Text → Type 0
IsReading entries root relative limit content =
    (path : Text) × (info : Entry) × Leads entries root relative (path, info)
    × (is_regular info ≡ true)
    × (info.content ≡ content)
    × (leb (length content) limit ≡ true)

take-long : (n : ℕ) (l : Text) → length l < n → take n l ≡ l
take-long zero [] h = refl
take-long zero (x ∷ l) h = ground arith
take-long (suc n) [] h = refl
take-long (suc n) (x ∷ l) h = ap (λ t. x ∷ t) (take-long n l (omega arith))

take-all : (n : ℕ) (l : Text) → leb (length l) n ≡ true → take (n + 1) l ≡ l
take-all n l h = take-long (n + 1) l (ground arith)

pub content_at-some :
    (entries : Entries) (path : Text) (info : Entry) (content : Text)
    → entries path ≡ some info
    → content_at path entries ≡ ok content
    → info.content ≡ content
content_at-some entries path info content e h = by_entry (entries path) e h
  where
    by_entry :
        (x : Option Entry)
        → x ≡ some info
        → elim x [ none ↦ err not_exist | some e ↦ ok e.content ] ≡ ok content
        → info.content ≡ content
    by_entry none e h = ground arith
    by_entry (some a) e h =
        let same : a ≡ info = ground (arith, e) in
        ap (λ (a : Entry). a.content) (sym same) ∙ ground (arith, h)

take-bound :
    (n : ℕ) (l : Text) → n + 1 < 2 ^ 63 → leb (length l) n ≡ true → take (read_bound n) l ≡ l
take-bound n l small h =
    let next : read_bound n ≡ n + 1 = ground (arith, small) in rw next (take-all n l h)

read_within-Looks :
    (entries : Entries) (root relative : Text) (limit : ℕ) (d : Disk)
    → limit + 1 < 2 ^ 63
    → d.entries ≡ entries
    → Looks entries (IsReading entries root relative limit) (read_within root relative limit d)
unfolding read_within
read_within-Looks entries root relative limit d below_wrap same =
    let R : Text → Type 0 = IsReading entries root relative limit in
    continue-Looks entries (Leads entries root relative) R _ _
      (confined_path-Looks entries root relative d same)
      (λ end d0 same0 leads.
        let path : Text = end.0 in
        let info : Entry = end.1 in
        continue-Looks entries (λ _. is_regular info ≡ true) R _ _
          (guard-Looks entries (is_regular info) _ d0 same0)
          (λ _ d1 same1 regular.
            continue-Looks entries (λ _. leb (length info.content) limit ≡ true) R _ _
              (guard-Looks entries (leb (length info.content) limit) _ d1 same1)
              (λ _ d2 same2 small.
                continue-Looks entries (λ opened. entries path ≡ some opened) R _ _
                  (lstat-Looks entries path d2 same2)
                  (λ opened d3 same3 there.
                    continue-Looks entries (λ _. is_regular opened ≡ true) R _ _
                      (guard-Looks entries (is_regular opened) _ d3 same3)
                      (λ _ d4 same4 again.
                        continue-Looks entries (λ content. info.content ≡ content) R _ _
                          (look-Looks entries (λ content. info.content ≡ content) (content_at path)
                            d4 same4
                            (λ content h.
                              content_at-some entries path info content
                                (Reaches-end entries root (split_path leads.0) path info leads.3)
                                h))
                          (λ content d5 same5 all.
                            let whole : take (read_bound limit) content ≡ content =
                              take-bound limit content below_wrap (rw (← all) small) in
                            continue-Looks entries
                              (λ _. leb (length (take (read_bound limit) content)) limit ≡ true) R
                              (λ _. lift (ok (take (read_bound limit) content))) _
                              (guard-Looks entries
                                (leb (length (take (read_bound limit) content)) limit) _ d5 same5)
                              (λ _ d6 same6 within. (
                                same6,
                                (path, info, leads, regular, all ∙ sym whole, within),
                              ))))))))

-- The number after the limit is an int64 too.
abbrev pub HasNext : ℤ → Type 0
HasNext (pos n) = n + 1 < 2 ^ 63
HasNext (negsuc n) = Unit

-- A read with a limit below the largest int64 changes no file, whatever it returns. If it returns
-- content, the limit is positive and the content is no longer than it: the whole content of a regular
-- file that the cleaned path leads to from the root, where neither the root nor any entry on the way
-- is a symbolic link.
pub read-IsReading :
    (root relative : Text) (limit : ℤ) (d : Disk)
    → HasNext limit
    → Looks d.entries
        (λ content.
          (n : ℕ) × (limit ≡ pos n) × (0 < n) × IsReading d.entries root relative n content)
        (read root relative limit d)
unfolding read
read-IsReading root relative (negsuc n) d next = refl
read-IsReading root relative (pos n) d next = elim (Bool-cases (n == 0)) [
  | inl e ↦ rw e refl
  | inr e ↦ rw e (
      weaken-Looks d.entries (IsReading d.entries root relative n) _ _
        (read_within-Looks d.entries root relative n d next refl)
        (λ content h. (n, refl, ground arith, h)))
]
