-- ===== src/Lib.antt =====
-- A file transfer over UDP made reliable by two daemons. The programs, and what models them:
--
--   ftpclient.c reads a file and sends it to its daemon in packets of 900 bytes (FtpClient:
--   signal_round is a round of its loop for a control message, chunk_round the part after a signal to
--   go on, ftp_client_rounds the loop with the failures of its calls).
--   tcpdclient.c is the sending daemon (Client: on_local, on_timer and on_request are the three
--   FD_ISSET parts of its loop, on_ack and on_finack what they do for acknowledgements,
--   find_in_buffer and window_empty the functions of these names). It keeps a window of 20 sequence
--   numbers and a ring of 64 packets, and has a timer run for each packet that is out.
--   timer.c with timer_lib.c is the timer process (Timer: timer_step is a round of its loop,
--   insert_peer, peer_exists, del_peer_from_list and update_list are addPeerToList, peerExists,
--   delPeerFromList and UpdateList). It keeps a delta list: each node holds its time after the node
--   before it.
--   tcpdserver.c is the receiving daemon (Server: take_in and deliver are the two parts of a round
--   for a packet with a right checksum, server_step the round, find_low, find_low_index and
--   find_low_in_buffer the functions of these names). It puts the packets in order, passes them on
--   and acknowledges them.
--   ftpserver.c writes the data that it is passed to a file (FtpServer: ftp_server_step).
--   timer_def.h is an earlier delta list (DeltaList, with the names of Timer), in unsigned
--   milliseconds that wrap around at 2 ^ 32.
--   tcpd_def.h computes the time of a timer (Rto: rto_get, timeval_diff), checksum.h the checksum
--   (Crc: crctab, table_entry for build_table, crc), packet.h declares the packets (Packet).
--   checksum.c computes the Internet checksum (Checksum), crc.c divides arrays of bits (BitCrc: divide
--   is the loop of update_crc), and crc32.c computes a CRC-32 by a table (Crc32); of these the last
--   two are used by the earlier programs.
--
-- The earlier programs, which the Makefile does not build, are in Earlier: ftpc.c (Ftpc: send is
-- SEND, ftpc_round a round of its loop) passes a file to tcpdc.c (Tcpdc: start_tcpdc is the part
-- before its loop, tcpdc_round a round of it, insert_tcp_header insertTCPHeader), which sends each
-- packet with a header of tcpheader.c (Header) through the troll to tcpds.c (Tcpds: start_tcpds
-- and tcpds_round) and waits for an acknowledgement; tcpds.c passes the bytes to ftps.c (Ftps:
-- start_ftps and ftps_round). Memory is what they do with arrays of bytes, Blocks the packets
-- behind the first one, and TcpdLib the message of tcpd_lib.c. A recvfrom of these programs may
-- fail, where they go on then; a sendto of ftpc.c may fail, which it tests. What gethostbyname
-- finds is a parameter, and so is what malloc leaves behind the bits in update_crc.
--
-- Outcome is what a round of a program ends in: it goes on in a state, it exits, or it has done
-- what C leaves undefined (`fault`: a write past an array, the use of an unset index). A run is
-- the list of what select or recvfrom report, one round each. EndToEnd joins the programs: the
-- packets of the file client reach its daemon in order, since they stay on one machine, and the
-- network (the troll) may lose, repeat, delay, reorder and damage packets between the daemons. The
-- one assumption on it, `Carried`, is that the checksum shows every damage.
--
-- System puts the five programs side by side, with a queue for what each has been sent. A move is
-- a round of one of them (ftp_client_step, client_step, timer_step, server_step, ftp_server_step),
-- or what the network does to the packet that would arrive next: it loses, repeats, delays or
-- damages it, the checksum being wrong then. A list of moves is an interleaving, and `system_run`
-- is `none` from a move that cannot be made or that C leaves undefined. In System and EndToEnd no
-- call of the file client fails, and the bytes behind its packet, which bzero clears, are unused.
--
-- Startup is what the programs do before their loops (main of tcpdclient.c, tcpdserver.c, timer.c,
-- ftpserver.c and ftpclient.c, and SEND of packet.h): client_start, server_start, timer_start,
-- ftps_start and ftpc_start in a monad of state and exit statuses. The calls of the operating
-- system are a parameter, `Os`; `IsMachine` says of it that sockets are to be had, that the names
-- are known, and that exactly a port that is taken cannot be bound again. A descriptor that is read
-- before it is set is a parameter.
--
-- How the data correspond. An int that is -1 where no number stands is `none`; other sequence
-- numbers are from 0 up and below 2 ^ 31. A double time is a whole number of eighths of a
-- microsecond, and a float of rto_get too, rounded to 24 bits (float_unit finds the last place of
-- a number below 2 ^ 88 in 64 halvings). A double or float that does not fit an int leaves INT_MIN
-- there, as on x86: C leaves it undefined. The doubly linked list is the list of its nodes, and
-- whether malloc finds memory is a Boolean of the message. A local that is never set is a
-- parameter (`stack`, `request`, `received`, `unset`). The address in a packet is a number that is
-- only copied. Loops over arrays are recursions on lists, so that no definition needs fuel but
-- four, float_unit and these: `divide` counts the rounds of a division, of which one for each bit
-- is enough, `quiet_rounds` counts rounds, of which `rounds_left` are enough, and `fold_sum` folds
-- a 32-bit sum twice, after which 16 bits are left.
--
-- Not modelled: the errors of select and sendto among the moves of System (ftp_client_rounds and
-- client_step have those of select, and the former those of the client's sendto and recvfrom),
-- what the programs print, the waiting of select and usleep, the signed overflow of sequence
-- numbers, tcpdclientold.c, which does what tcpdclient.c does (it differs in a port number, an
-- active getsockname, comments and prints), timer_lib.h, which is the text of timer_lib.c, and the
-- socket that UpdateList opens.
pub mod Base
pub mod Timer
pub mod Outcome
pub mod Packet
pub mod Crc
pub mod Server
pub mod Rto
pub mod Client
pub mod FtpClient
pub mod FtpServer
pub mod EndToEnd
pub mod Startup
pub mod System
pub mod DeltaList
pub mod Checksum
pub mod BitCrc
pub mod Crc32
pub mod Earlier
