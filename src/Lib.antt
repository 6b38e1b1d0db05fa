-- ===== src/Lib.antt =====
-- The verification library of the Nextcloud Talk telephony gateway.
--
-- The gateway connects a Nextcloud Talk signaling server to a SIP server. A dialout request of the
-- signaling server becomes an INVITE for one of the gateway's SIP accounts; once the call is
-- answered, the bridge publishes the RTP of the SIP side as a WebRTC track of the room and forwards
-- the audio of one participant back. The signaling server is reached by a WebSocket client of the
-- gateway's own; the accounts are fetched again from Nextcloud from time to time.
--
-- Ws.antt and its children are internal/simplews/simplews.go. Ws holds the connection, `write_frame`
-- (writeFrameLocked) and `read_message` (readMessage), a frame at a time by `read_frame`;
-- Ws/Frame.antt the frames of RFC 6455; Ws/Read.antt messages in fragments; Ws/Json.antt `read_json`
-- (ReadJSON); Ws/Dial.antt `dial` (Dial). The loop of readMessage runs on fuel that passes the
-- length of the input, and each round takes two bytes at least; ReadJSON's counts messages. A loop
-- that ran out of fuel would return `out_of_fuel`, which is no error of the code.
--
-- Accounts.antt and its children are cmd/gateway/accounts.go. Accounts holds normalizeAccounts,
-- installAccounts, AccountByExtension and SelectOutbound, with pointers as addresses;
-- Accounts/Registrations.antt the loops that run for the accounts, as startRegistration,
-- stopRegistration, reconcileRegistrations and refreshLoop change them, with logs of those that are
-- started, cancelled and unregistered. A Go map is the association list of Dict.antt.
--
-- Media.antt and its children are internal/media/g711.go; the exponent loops have the fuel of their
-- counters, and the downsampling loop that of the number of samples.
--
-- Bridge.antt and its children are cmd/gateway/rtc_bridge.go: Bridge/Talk.antt handleEvent and
-- OnTrack, Bridge/Publish.antt PublishSIPRTP, Bridge/Forward.antt forwardTalkTrack,
-- Bridge/Peers.antt acceptSubscriberOffer (in its two critical sections), handleRTCMessage and
-- Close, Bridge/Peers/Start.antt startPublisher and StartMediaBridge, Bridge/Peers/Offers.antt the
-- goroutines of acceptSubscriberOffer interleaved with each other, the publisher and Close, and
-- Bridge/Reading.antt readLoop, which hands what it reads to Talk.antt and Peers.antt. What pion
-- answers is a parameter.
--
-- Sip.antt and its children are the SIP side of cmd/gateway/main.go, cmd/gateway/inbound.go and
-- cmd/gateway/accounts.go: Sip the parsers and the responses, Sip/Wire.antt and the files Written
-- and Exchange the messages that are written, as they are read back, Sip/Sdp.antt the session descriptions,
-- Sip/Digest.antt digest authentication, Sip/Dialout.antt and Sip/Dialout/Loop.antt handleDialout
-- and sipDial, Sip/Dialout/Place.antt the addresses that sipDial finds first and handleDialout with
-- its session of Session.antt and its account of Accounts.antt, Sip/Live.antt runRTPWebRTCBridge and the BYE, Sip/Register.antt register, and
-- Sip/Register/Refresh.antt registrationLoop. The reads of a socket, and the responses that a waiter
-- receives, up to the deadline are a list.
--
-- Session.antt is the signaling connection of one call, cmd/gateway/main.go's openTalkCallSession
-- and Close and cmd/gateway/inbound.go's WaitForTalkParticipant: the messages of the server are a
-- list, at whose end a read fails.
--
-- Inbound.antt is handleSharedSIPRequest with the registry of the calls that run, Inbound/Calls.antt
-- its steps, interleaved with the ends of calls; Inbound/Transport.antt the shared socket of
-- cmd/gateway/sip_transport.go, Inbound/Transport/Inbox.antt the channel of one waiter by itself,
-- Inbound/Transport/Registers.antt register as a client of the socket,
-- Inbound/DialIn.antt directDialIn, and Inbound/Invite.antt handleInboundINVITE, which takes a
-- session of Session.antt, an account of Accounts.antt and a room of Inbound/DialIn.antt.
--
-- Gateway.antt and its children are the program around this: Gateway/Config.antt loadConfig,
-- Gateway/Load.antt fetchAccounts and loadAccountManager, Gateway/Run.antt run, sendHello and
-- keepaliveLoop.
--
-- Text.antt models the functions of Go's `strings` and `strconv` on ASCII, its children their laws, Base.antt what all share.
--
-- Not modelled: the goroutines that only pass RTP packets on, the pings of a call's session,
-- runRTPTest, which has no caller, and the opening of sockets; and logging, the Opus binding and
-- pion, which are I/O or not the program's own.
pub mod Base
pub mod Text
pub mod Dict
pub mod Accounts
pub mod Media
pub mod Ws
pub mod Bridge
pub mod Session
pub mod Sip
pub mod Inbound
pub mod Gateway
