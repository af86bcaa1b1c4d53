-- ===== src/Wm/Client/Each.antt =====
-- A property of every client, through a loop over the clients and a write to one.
use isde.Common.{ℕ, List, [], ◌∷◌, ◌++◌, arith}
use isde.Wm.Client.{Client, Request, sweep, update_client}

abbrev pub Each : (Client → Type 0) → List Client → Type 0
Each P [] = Unit {0}
Each P (c ∷ cs) = P c × Each P cs

module _ (P Q : Client → Type 0) where
  pub Each-sweep :
      (f : Client → Client × List Request)
      → ((c : Client) → P c → Q (f c).0)
      → (cs : List Client) (log : List Request) → Each P cs
      → Each Q (sweep f cs log).0
  unfolding sweep
  Each-sweep f h [] log v = tt
  Each-sweep f h (c ∷ cs) log v = (h c v.0, Each-sweep f h cs ((f c).1 ++ log) v.1)

  pub Each-mono : ((c : Client) → P c → Q c) → (cs : List Client) → Each P cs → Each Q cs
  Each-mono h [] v = tt
  Each-mono h (c ∷ cs) v = (h c v.0, Each-mono h cs v.1)

module _ (P : Client → Type 0) where
  pub Each-update :
      (i : ℕ) (f : Client → Client)
      → ((c : Client) → P c → P (f c))
      → (cs : List Client) → Each P cs
      → Each P (update_client i f cs)
  unfolding update_client
  Each-update i f h [] v = tt
  Each-update i f h (c ∷ cs) v = ground (arith, h c v.0, Each-update i f h cs v.1)

pub Each-Unit : (cs : List Client) → Each (λ c. Unit {0}) cs
Each-Unit [] = tt
Each-Unit (c ∷ cs) = (tt, Each-Unit cs)
