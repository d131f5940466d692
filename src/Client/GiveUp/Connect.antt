-- ===== src/Client/GiveUp/Connect.antt =====
-- c/netcode.c: updates of a client that hears nothing, from netcode_client_connect on.
use netcode_io.Sodium.{Sodium}
use netcode_io.Client.{Client}
