-- ===== src/Disk/Changing.antt =====
-- Calls that change a disk.
use ohinfra_plugins.Base.{
  ◌≡◌, refl, ◌∙◌, ap, Text, eq_text, eq_text_refl, false, Option, none, some, Fallible, ok, err,
}
use ohinfra_plugins.Disk.{
  Entry, Entries, Disk, Io, continue, act, act-cases, set_entry, change_entry, changed,
}
use ohinfra_plugins.Disk.Looking.{Looks}

-- What holds of the entries if the call fails, and of its result and the entries if it does not.
abbrev pub Ends :
    {A : Type 0} → (Entries → Type 0) → (A → Entries → Type 0) → Fallible A × Disk → Type 0
Ends E Q (ok a, d) = Q a d.entries
Ends E Q (err e, d) = E d.entries

pub act-Ends :
    (E : Entries → Type 0) (Q : Unit {0} → Entries → Type 0) (f : Entries → Entries) (d : Disk)
    → E d.entries
    → Q tt (f d.entries)
    → Ends E Q (act f d)
act-Ends E Q f d e q = act-cases (Ends E Q) f d (λ rest. e) (λ rest. q)

pub continue-Ends :
    {A B : Type 0} (E : Entries → Type 0) (Q : A → Entries → Type 0) (R : B → Entries → Type 0)
    (k : A → Io B) (r : Fallible A × Disk)
    → Ends E Q r
    → ((a : A) (d : Disk) → Q a d.entries → Ends E R (k a d))
    → Ends E R (continue k r)
continue-Ends E Q R k (ok a, d) q next = next a d q
continue-Ends E Q R k (err e, d) h next = h

pub weaken-Ends :
    {A : Type 0} (E F : Entries → Type 0) (Q R : A → Entries → Type 0) (r : Fallible A × Disk)
    → Ends E Q r
    → ((v : Entries) → E v → F v)
    → ((a : A) (v : Entries) → Q a v → R a v)
    → Ends F R r
weaken-Ends E F Q R (ok a, d) q f g = g a d.entries q
weaken-Ends E F Q R (err e, d) h f g = f d.entries h

-- A call that only looks.
pub Looks-Ends :
    {A : Type 0} (w : Entries) (P : A → Type 0) (E : Entries → Type 0) (Q : A → Entries → Type 0)
    (r : Fallible A × Disk)
    → Looks w P r
    → E w
    → ((a : A) → P a → Q a w)
    → Ends E Q r
Looks-Ends w P E Q (ok a, d) (same, p) e f = rw same (f a p)
Looks-Ends w P E Q (err x, d) same e f = rw same e

-- The entries differ at one path at most.
abbrev pub Apart : Text → Entries → Entries → Type 0
Apart path v w = (q : Text) → eq_text q path ≡ false → v q ≡ w q

-- They have this entry at the path, and are the others elsewhere.
abbrev pub At : Text → Option Entry → Entries → Entries → Type 0
At path e w v = (v path ≡ e) × Apart path v w

pub set_entry-At :
    (path : Text) (e e' : Option Entry) (w v : Entries)
    → Apart path v w
    → At path e' w (set_entry path e' v)
set_entry-At path e e' w v apart = (rw (eq_text_refl path) refl, (λ q h. rw h (apart q h)))

pub change_entry-At :
    (path : Text) (f : Entry → Entry) (e : Entry) (w v : Entries)
    → At path (some e) w v
    → At path (some (f e)) w (change_entry path f v)
change_entry-At path f e w v (here, apart) =
    let (there, apart') = set_entry-At path none (changed f (v path)) w v apart in
    (there ∙ ap (changed f) here, apart')
