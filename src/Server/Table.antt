-- ===== src/Server/Table.antt =====
-- c/netcode.c: what holds of the server's table of clients, and what the three kinds of changes of one
-- index do to it.
use netcode_io.Base.{
  and_first, ℕ, zero, suc, ◌+◌, ◌-◌, ◌<◌, ◌≤◌, List, [], ◌∷◌, length, set, get_or, Bool, true,
  false, not, ◌&&◌, if◌then◌else◌, different, some, get_or-set_self, get_or-set_ne, length-set, ◌≡◌,
  ◌≢◌, ◌⊎◌, inl, inr, refl, ap, sym, ◌∙◌, subst, arith,
}
use netcode_io.Address.{unset, address_equal}
use netcode_io.Address.Laws.{address_equal_comm}
use netcode_io.Queue.Refine.{IsPacketQueue, contents}
use netcode_io.Time.{Doubles}
use netcode_io.Server.{ServerClient, free_client, max_server_clients}
use native.Mathlib.Decide.{ℕ_discrete}

module _ (doubles : Doubles) where
  abbrev pub at : List (ServerClient doubles) → ℕ → ServerClient doubles
  at clients i = get_or clients i (free_client doubles)

  abbrev pub is_remote_client : ServerClient doubles → Bool
  is_remote_client c = c.connected && not c.loopback

  abbrev pub one_if : Bool → ℕ
  one_if b = if b then 1 else 0

  abbrev pub count_connected : List (ServerClient doubles) → ℕ
  count_connected [] = 0
  count_connected (c ∷ clients) = one_if c.connected + count_connected clients

  -- What holds of one client. One that is not connected is not in loopback and holds no packet. One
  -- that is connected over the network has an encryption index, and one in loopback no address.
  pub record IsServerClient (c : ServerClient doubles) : Type 0 where
    pub queue_in : IsPacketQueue c.packet_queue
    pub idle : c.connected ≡ false → (c.loopback ≡ false) × (contents c.packet_queue ≡ [])
    pub keyed : is_remote_client c ≡ true → (k : ℕ) × (c.encryption_index ≡ some k)
    pub unaddressed : c.loopback ≡ true → c.address ≡ unset

  -- Neither their addresses nor their ids are the same.
  abbrev pub AreApart : ServerClient doubles → ServerClient doubles → Type 0
  AreApart c d = (address_equal c.address d.address ≡ false) × (c.client_id ≢ d.client_id)

  -- The number of clients is right, no client is connected from `max` on, and two clients that are
  -- connected over the network have different addresses and ids.
  pub record IsTable (clients : List (ServerClient doubles)) (num max : ℕ) : Type 0 where
    pub size : length clients ≡ max_server_clients
    pub fits : max ≤ max_server_clients
    pub counted : num ≡ count_connected clients
    pub free_beyond : (i : ℕ) → max ≤ i → (at clients i).connected ≡ false
    pub each : (i : ℕ) → IsServerClient (at clients i)
    pub apart :
        (i j : ℕ)
        → i ≢ j
        → is_remote_client (at clients i) ≡ true
        → is_remote_client (at clients j) ≡ true
        → AreApart (at clients i) (at clients j)

  count-set :
      (clients : List (ServerClient doubles)) (i : ℕ) (c : ServerClient doubles)
      → i < length clients
      → count_connected (set clients i c) + one_if (at clients i).connected
        ≡ count_connected clients + one_if c.connected
  count-set [] i c h = absurd (omega arith)
  count-set (d ∷ clients) zero c h = omega arith
  count-set (d ∷ clients) (suc i) c h =
      let rest = count-set clients i c (omega (arith, h)) in omega (arith, rest)

  sym-AreApart : (c d : ServerClient doubles) → AreApart c d → AreApart d c
  sym-AreApart c d (addresses, ids) =
      (address_equal_comm d.address c.address ∙ addresses, λ e. ids (sym e))

  pub at-set_self :
      (clients : List (ServerClient doubles)) (i : ℕ) (c : ServerClient doubles)
      → i < length clients
      → at (set clients i c) i ≡ c
  at-set_self clients i c h = get_or-set_self clients i c (free_client doubles) h

  pub at-set_ne :
      (clients : List (ServerClient doubles)) (i j : ℕ) (c : ServerClient doubles)
      → i ≢ j
      → at (set clients i c) j ≡ at clients j
  at-set_ne clients i j c h = get_or-set_ne clients c (free_client doubles) h

  -- What a change of one client leaves alone there, it leaves alone everywhere.
  pub at-set_same :
      {A : Type 0} (f : ServerClient doubles → A) (clients : List (ServerClient doubles)) (i : ℕ)
      (c : ServerClient doubles)
      → f c ≡ f (at clients i)
      → (j : ℕ) → f (at (set clients i c) j) ≡ f (at clients j)
  at-set_same f [] i c h j = refl
  at-set_same f (d ∷ clients) zero c h zero = h
  at-set_same f (d ∷ clients) zero c h (suc j) = refl
  at-set_same f (d ∷ clients) (suc i) c h zero = refl
  at-set_same f (d ∷ clients) (suc i) c h (suc j) = at-set_same f clients i c h j

  pub at-set_either :
      (clients : List (ServerClient doubles)) (i : ℕ) (c : ServerClient doubles) (j : ℕ)
      → (at (set clients i c) j ≡ c) ⊎ (at (set clients i c) j ≡ at clients j)
  at-set_either [] i c j = inr refl
  at-set_either (d ∷ clients) zero c zero = inl refl
  at-set_either (d ∷ clients) zero c (suc j) = inr refl
  at-set_either (d ∷ clients) (suc i) c zero = inr refl
  at-set_either (d ∷ clients) (suc i) c (suc j) = at-set_either clients i c j

  -- What holds of the new client and of all others holds of all.
  pub everywhere :
      (P : ℕ → ServerClient doubles → Type 0) (clients : List (ServerClient doubles)) (i : ℕ)
      (c : ServerClient doubles)
      → i < length clients
      → P i c
      → ((j : ℕ) → i ≢ j → P j (at clients j))
      → (j : ℕ) → P j (at (set clients i c) j)
  everywhere P clients i c h new old j = elim (ℕ_discrete i j) [
    | yes same ↦
        subst (λ k. P k (at (set clients i c) k)) same
          (subst (P i) (sym (at-set_self clients i c h)) new)
    | no differs ↦ subst (P j) (sym (at-set_ne clients i j c differs)) (old j differs)
  ]

  -- One client changes.
  pub change-IsTable :
      (clients : List (ServerClient doubles)) (num max num' i : ℕ) (c : ServerClient doubles)
      → IsTable clients num max
      → i < max
      → num' + one_if (at clients i).connected ≡ num + one_if c.connected
      → IsServerClient c
      → (is_remote_client c ≡ true
          → (j : ℕ) → i ≢ j
          → is_remote_client (at clients j) ≡ true
          → AreApart c (at clients j))
      → IsTable (set clients i c) num' max
  change-IsTable clients num max num' i c valid h counted valid_c apart =
      let inside : i < length clients = omega (arith, h, valid.fits, valid.size) in
      record {
        size = length-set clients i c ∙ valid.size;
        fits = valid.fits;
        counted = omega (arith, count-set clients i c inside, valid.counted, counted);
        free_beyond =
            everywhere (λ j d. max ≤ j → d.connected ≡ false) clients i c inside
              (λ l. absurd (omega (arith, h, l))) (λ j differs. valid.free_beyond j);
        each =
            everywhere (λ j d. IsServerClient d) clients i c inside valid_c
              (λ j differs. valid.each j);
        apart =
            everywhere
              (λ j d.
                (k : ℕ)
                → j ≢ k
                → is_remote_client d ≡ true
                → is_remote_client (at (set clients i c) k) ≡ true
                → AreApart d (at (set clients i c) k))
              clients i c inside
              (λ k differs remote.
                subst (λ d. is_remote_client d ≡ true → AreApart c d)
                  (sym (at-set_ne clients i k c differs)) (apart remote k differs))
              (λ j differs.
                everywhere
                  (λ k d.
                    j ≢ k
                    → is_remote_client (at clients j) ≡ true
                    → is_remote_client d ≡ true
                    → AreApart (at clients j) d)
                  clients i c inside
                  (λ _ remote remote_c.
                    sym-AreApart c (at clients j) (apart remote_c j differs remote))
                  (λ k _ differs'. valid.apart j k differs'));
      }

  -- A change that concerns neither who the client is nor how it is connected.
  pub same-IsTable :
      (clients : List (ServerClient doubles)) (num max i : ℕ) (c : ServerClient doubles)
      → IsTable clients num max
      → i < max
      → c.connected ≡ (at clients i).connected
      → c.loopback ≡ (at clients i).loopback
      → c.address ≡ (at clients i).address
      → c.client_id ≡ (at clients i).client_id
      → IsServerClient c
      → IsTable (set clients i c) num max
  same-IsTable clients num max i c valid h connected loop address id valid_c =
      change-IsTable clients num max num i c valid h (ap (λ b. num + one_if b) (sym connected))
        valid_c
        λ remote j differs remote_j.
          rw (address, id)
            (valid.apart i j differs (sym (rw (connected, loop) refl) ∙ remote) remote_j)

  connected_positive :
      (clients : List (ServerClient doubles)) (num max i : ℕ)
      → IsTable clients num max
      → i < max
      → (at clients i).connected ≡ true
      → 0 < num
  connected_positive clients num max i valid h connected =
      let one : one_if (at clients i).connected ≡ 1 = rw connected refl in
      omega (
        arith,
        one,
        valid.counted,
        count-set clients i (free_client doubles) (omega (arith, h, valid.fits, valid.size)),
      )

  -- A client that was connected is gone.
  pub gone-IsTable :
      (clients : List (ServerClient doubles)) (num max i : ℕ) (c : ServerClient doubles)
      → IsTable clients num max
      → i < max
      → (at clients i).connected ≡ true
      → c.connected ≡ false
      → IsServerClient c
      → IsTable (set clients i c) (num - 1) max
  gone-IsTable clients num max i c valid h connected gone valid_c =
      change-IsTable clients num max (num - 1) i c valid h
        (rw (connected, gone)
          (omega (arith, connected_positive clients num max i valid h connected)))
        valid_c (λ remote. absurd (different (sym (and_first _ _ remote) ∙ gone)))

  -- A client is connected at an index that was free.
  pub new-IsTable :
      (clients : List (ServerClient doubles)) (num max i : ℕ) (c : ServerClient doubles)
      → IsTable clients num max
      → i < max
      → (at clients i).connected ≡ false
      → c.connected ≡ true
      → IsServerClient c
      → (is_remote_client c ≡ true
          → (j : ℕ) → i ≢ j
          → is_remote_client (at clients j) ≡ true
          → AreApart c (at clients j))
      → IsTable (set clients i c) (num + 1) max
  new-IsTable clients num max i c valid h free connected valid_c apart =
      change-IsTable clients num max (num + 1) i c valid h (rw (free, connected) (omega arith))
        valid_c apart
