-- ===== src/Net/Tcp/Runs.antt =====
-- Runs of events on a connection, from its constructor.
use cloud_storge_system.Common.{
  refl, Bool, true, false, if◌then◌else◌, Bytes, Option, none, some, List, [], ◌∷◌, ◌++◌, arith,
}
use cloud_storge_system.Net.Tcp.{Conn, make}
use cloud_storge_system.Net.Tcp.Life.{Event, step}
use cloud_storge_system.Net.Tcp.Shape.{Inv}
use cloud_storge_system.Net.Tcp.Steps.{Allowed, took, is_cut_short}

abbrev AdmitsOn : (Conn → Type 0) → Option Conn → Type 0
AdmitsOn f none = Unit
AdmitsOn f (some c) = f c

-- In a run, a connection is established only in the state kConnecting, and a channel reads or hangs
-- up only while it is enabled for reading.
unfoldable pub Admits : List Event → Conn → Type 0
unfolding step
Admits [] c = Unit
Admits (e ∷ es) c = Allowed e c × AdmitsOn (Admits es) (step e c)

abbrev took_on : (Conn → Bytes) → Option Conn → Bytes
took_on f none = []
took_on f (some c) = f c

-- The texts that the connection takes in a run, in their order.
unfoldable pub took_all : List Event → Conn → Bytes
unfolding step
took_all [] c = []
took_all (e ∷ es) c = took e c ++ took_on (took_all es) (step e c)

abbrev cut_on : (Conn → Bool) → Option Conn → Bool
cut_on f none = false
cut_on f (some c) = f c

-- Whether a run destroys the connection while it is half closed.
unfoldable pub cuts_short : List Event → Conn → Bool
unfolding step
cuts_short [] c = false
cuts_short (e ∷ es) c =
    let rest = cut_on (cuts_short es) (step e c) in if is_cut_short e c then true else rest

pub make-Inv : Inv make
make-Inv = record {
  silent = λ h. (refl, refl);
  listens = λ h. ground arith;
  waits = λ h. ground arith;
  quiet = λ h. (refl, refl);
  story = refl;
}
